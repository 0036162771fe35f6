-- ===== src/Mcp/Schema/Arguments.antt =====
-- What `validateArguments` of mcp/server.go accepts.
use aqi.Prelude.{
  Bool, true, false, String, List, [], ◌∷◌, Option, none, some, comparable_string, ◌≡◌, ◌↔◌, refl,
  subst, All, if◌then◌else◌, arith,
}
use aqi.Prelude.Dict.{Dict, get}
use aqi.Mcp.Schema.{
  Json, Fields, Schema, Props, end_props, prop, schema_type, properties, required, object,
  decode_fields, validate_argument_type, ArgumentError, missing, wrong_type, check_required,
  check_properties, check_arguments, validate_arguments,
}

-- An argument is given.
abbrev pub IsGiven : Dict String Json → String → Type 0
IsGiven args name = (v : Json) × (get args name ≡ some v)

-- Each argument that has a property of its name is of that property's type.
abbrev pub AreTyped : Props → Dict String Json → Type 0
AreTyped end_props args = Unit
AreTyped (prop name s ps) args =
    ((v : Json) → get args name ≡ some v → validate_argument_type (schema_type s) v ≡ true)
    × AreTyped ps args

check_required-All :
    (names : List String) (args : Dict String Json)
    → (check_required names args ≡ none) ↔ All (IsGiven args) names
unfolding check_required
check_required-All [] args = (λ e. tt, λ a. refl)
check_required-All (name ∷ names) args = go (get args name) refl (check_required-All names args)
  where
    go :
        (o : Option Json)
        → get args name ≡ o
        → (check_required names args ≡ none) ↔ All (IsGiven args) names
        → (elim o [ none ↦ some (missing name) | some v ↦ check_required names args ] ≡ none)
          ↔ (IsGiven args name × All (IsGiven args) names)
    go none e rest = (λ h. absurd (ground (arith, h)), λ a. absurd (ground (arith, e, a.0.1)))
    go (some v) e rest = (λ h. ((v, e), rest.0 h), λ a. rest.1 a.1)

check_properties-AreTyped :
    (ps : Props) (args : Dict String Json) → (check_properties ps args ≡ none) ↔ AreTyped ps args
unfolding check_properties
check_properties-AreTyped end_props args = (λ e. tt, λ a. refl)
check_properties-AreTyped (prop name s ps) args =
    go (get args name) refl (check_properties-AreTyped ps args)
  where
    typed :
        (v : Json) (b : Bool)
        → (check_properties ps args ≡ none) ↔ AreTyped ps args
        → get args name ≡ some v
        → validate_argument_type (schema_type s) v ≡ b
        → ((if b then check_properties ps args else some (wrong_type name (schema_type s))) ≡ none)
          ↔ AreTyped (prop name s ps) args
    typed v true rest e t = (
      λ h. (
        (λ w g.
            subst (λ x. validate_argument_type (schema_type s) x ≡ true) (ground (arith, e, g)) t),
        rest.0 h,
      ),
      λ a. rest.1 a.1,
    )
    typed v false rest e t =
        (λ h. absurd (ground (arith, h)), λ a. absurd (let k = a.0 v e in ground (arith, t, k)))

    go :
        (o : Option Json)
        → get args name ≡ o
        → (check_properties ps args ≡ none) ↔ AreTyped ps args
        → (elim o [
          | none ↦ check_properties ps args
          | some v ↦
              if validate_argument_type (schema_type s) v
              then check_properties ps args
              else some (wrong_type name (schema_type s))
        ]
            ≡ none)
          ↔ AreTyped (prop name s ps) args
    go none e rest = (λ h. ((λ w g. absurd (ground (arith, e, g))), rest.0 h), λ a. rest.1 a.1)
    go (some v) e rest = typed v (validate_argument_type (schema_type s) v) rest e refl

-- The arguments of an object are accepted exactly if each required one is given and each given one
-- that has a property is of the property's type. Nothing is asked of the arguments that have none,
-- whatever `additionalProperties` says.
pub validate_arguments_accepts :
    (s : Schema) (fs : Fields)
    → (validate_arguments s (object fs) ≡ none) ↔ (
        All (IsGiven (decode_fields fs [])) (required s)
        × AreTyped (properties s) (decode_fields fs []))
unfolding validate_arguments check_arguments
validate_arguments_accepts s fs =
    go (check_required (required s) (decode_fields fs []))
      (check_required-All (required s) (decode_fields fs []))
  where
    go :
        (o : Option ArgumentError)
        → (o ≡ none) ↔ All (IsGiven (decode_fields fs [])) (required s)
        → (elim o [ some e ↦ some e | none ↦ check_properties (properties s) (decode_fields fs []) ]
            ≡ none)
          ↔ (All (IsGiven (decode_fields fs [])) (required s)
              × AreTyped (properties s) (decode_fields fs []))
    go none h =
        let rest = check_properties-AreTyped (properties s) (decode_fields fs []) in
        (λ e. (h.0 refl, rest.0 e), λ a. rest.1 a.1)
    go (some x) h =
        (λ e. absurd (ground (arith, e)), λ a. absurd (let e = h.1 a.0 in ground (arith, e)))
