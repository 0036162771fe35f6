-- ===== src/Docgen/Json/Requests.antt =====
-- The example request that `buildJSONAction` of internal/docgen/generator.go writes.
use mathlib.Core.List.{foldl}
use aqi.Prelude.{
  Bool, true, false, not, ◌&&◌, ◌||◌, List, [], ◌∷◌, ◌++◌, some, ◌≡◌, refl, sym, ap, ◌∙◌, ◌==◌,
  ==_iff, comparable_nat, if◌then◌else◌, Bool-cases, inl, inr, arith,
}
use aqi.Prelude.Dict.{Dict, get}
use aqi.Prelude.Texts.{Text, comparable_text}
use aqi.Docgen.Doc.{ParamField}
use aqi.Docgen.Json.{
  Sample, Value, plain, child_key, add_child, add_example, example_params, get_json_example_value,
}
use aqi.Docgen.Json.Samples.{
  has_dot, top_key, clash, IsApart, value_at, lookup, plain_value, add_at, add_example-add_at,
  get-add_at, put_here, sibling_stays, field_set, plain_stays,
}

-- A round for a name leaves the value at another place.
at_keeps :
    (d : Dict Text Value) (b c : Bool) (top child key field : Text) (s : Sample)
    → (top == key && (not (b && c) || child == field)) ≡ false
    → value_at c field (get (add_at b d top child s) key) ≡ value_at c field (get d key)
at_keeps d b c top child key field s h = elim (Bool-cases (top == key)) [
  | inr f ↦ ap (value_at c field) (get-add_at b d top child key s f)
  | inl t ↦ here b c ((==_iff top key).0 t) (ground (arith, h, t))
]
  where
    here :
        (b c : Bool)
        → top ≡ key
        → (not (b && c) || child == field) ≡ false
        → value_at c field (get (add_at b d top child s) key) ≡ value_at c field (get d key)
    here true true e k = rw (sym e) (sibling_stays d top child field s (get d top) refl k)
    here true false e k = absurd (ground (arith, k))
    here false c e k = absurd (ground (arith, k))

-- A name with a dot finds no value of its own at its parent, after a round as before it.
at_stays :
    (d : Dict Text Value) (b c : Bool) (top child key field : Text) (s : Sample)
    → (top == key && (not (b && c) || child == field)) ≡ false
    → (c && plain_value (get d key)) ≡ false
    → (c && plain_value (get (add_at b d top child s) key)) ≡ false
at_stays d b c top child key field s h k = elim (Bool-cases (top == key)) [
  | inr f ↦ ap (λ o. c && plain_value o) (get-add_at b d top child key s f) ∙ k
  | inl t ↦ here b c ((==_iff top key).0 t) (ground (arith, h, t)) k
]
  where
    here :
        (b c : Bool)
        → top ≡ key
        → (not (b && c) || child == field) ≡ false
        → (c && plain_value (get d key)) ≡ false
        → (c && plain_value (get (add_at b d top child s) key)) ≡ false
    here true true e m n =
        ap (λ i. plain_value (get (add_child d top child s (get d top)) i)) (sym e)
        ∙ plain_stays d top child s (get d top) refl
        ∙ ap (λ i. plain_value (get d i)) e
        ∙ n
    here true false e m n = refl
    here false c e m n = absurd (ground (arith, m))

at_sets :
    (d : Dict Text Value) (c : Bool) (top child : Text) (s : Sample)
    → (c && plain_value (get d top)) ≡ false
    → value_at c child (get (add_at c d top child s) top) ≡ some s
at_sets d true top child s h = field_set d top child s (get d top) refl h
at_sets d false top child s h = ap (value_at false child) (put_here d top (plain s))

-- Nothing that is in the way of a name.
abbrev IsFree : ParamField → Dict Text Value → Type 0
IsFree p d = (has_dot p.name && plain_value (get d (top_key p.name))) ≡ false

round_keeps :
    (d : Dict Text Value) (p q : ParamField)
    → (q.is_required && clash q.name p.name) ≡ false
    → (lookup (add_example d q) p.name ≡ lookup d p.name)
      × (IsFree p d → IsFree p (add_example d q))
round_keeps d p q h = elim (Bool-cases q.is_required) [
  | inr f ↦
      let same : add_example d q ≡ d = add_example-add_at d q ∙ rw (f, if◌then◌else◌) refl in
      (ap (λ e. lookup e p.name) same, λ free. rw same free)
  | inl t ↦
      let apart : clash q.name p.name ≡ false = ground (arith, h, t) in
      let same = add_example-add_at d q ∙ rw (t, if◌then◌else◌) refl in
      (
        ap (λ e. lookup e p.name) same
            ∙ at_keeps d (has_dot q.name) (has_dot p.name) (top_key q.name) (child_key q.name)
                (top_key p.name) (child_key p.name) (get_json_example_value q.type) apart,
        λ free.
            ap (λ e. has_dot p.name && plain_value (get e (top_key p.name))) same
            ∙ at_stays d (has_dot q.name) (has_dot p.name) (top_key q.name) (child_key q.name)
                (top_key p.name) (child_key p.name) (get_json_example_value q.type) apart free,
      )
]

rounds_keep :
    (p : ParamField) (qs : List ParamField) (d : Dict Text Value)
    → IsApart p qs
    → (lookup (foldl add_example d qs) p.name ≡ lookup d p.name)
      × (IsFree p d → IsFree p (foldl add_example d qs))
rounds_keep p [] d h = (refl, λ free. free)
rounds_keep p (q ∷ qs) d h =
    let once = round_keeps d p q h.0 in
    let more = rounds_keep p qs (add_example d q) h.1 in
    (more.0 ∙ once.0, λ free. more.1 (once.1 free))

foldl-append :
    (before after : List ParamField) (d : Dict Text Value)
    → foldl add_example d (before ++ after) ≡ foldl add_example (foldl add_example d before) after
foldl-append [] after d = refl
foldl-append (q ∷ before) after d = foldl-append before after (add_example d q)

-- The example request has a value of the right kind for each required parameter that clashes with no
-- other required one: under its name, or, for a name with a dot, as a field of the object under the
-- part before the first dot. The order of the parameters does not matter.
pub example_params-lookup :
    (before after : List ParamField) (p : ParamField)
    → p.is_required ≡ true
    → IsApart p before
    → IsApart p after
    → lookup (example_params (before ++ p ∷ after)) p.name ≡ some (get_json_example_value p.type)
unfolding example_params get
example_params-lookup before after p r apart_before apart_after =
    let d = foldl add_example [] before in
    let free : IsFree p d = (rounds_keep p before [] apart_before).1 (ground (arith)) in
    ap (λ e. lookup e p.name) (foldl-append before (p ∷ after) [])
    ∙ (rounds_keep p after (add_example d p) apart_after).0
    ∙ ap (λ e. lookup e p.name) (add_example-add_at d p ∙ rw (r, if◌then◌else◌) refl)
    ∙ at_sets d (has_dot p.name) (top_key p.name) (child_key p.name) (get_json_example_value p.type)
        free
