-- ===== src/Docgen/Json/Samples.antt =====
-- The places of names in the example request of `buildJSONAction` (internal/docgen/generator.go).
use aqi.Prelude.{
  Bool, true, false, not, ◌&&◌, ◌||◌, List, [], Option, none, some, ◌≡◌, refl, ap, ◌∙◌, ◌==◌,
  ==_iff, comparable_nat, All, if◌then◌else◌, Bool-cases, inl, inr, arith,
}
use aqi.Prelude.Dict.{Dict, get, put, get-put}
use aqi.Prelude.Texts.{Text, codes, comparable_text, holds}
use aqi.Docgen.Doc.{ParamField}
use aqi.Docgen.Json.{
  Sample, Value, plain, object, parent_key, child_key, add_child, add_example,
  get_json_example_value,
}

abbrev pub has_dot : Text → Bool
has_dot name = holds (codes ".") name

-- The key of `params` under which a name stands.
abbrev pub top_key : Text → Text
top_key name = if has_dot name then parent_key name else name

-- Two names that stand at one place, or one of which is the parent of the other.
abbrev pub clash : Text → Text → Bool
clash n m = top_key n == top_key m && (not (has_dot n && has_dot m) || child_key n == child_key m)

-- The parameter does not clash with those that are required.
abbrev pub IsApart : ParamField → List ParamField → Type 0
IsApart p qs = All (λ (q : ParamField). (q.is_required && clash q.name p.name) ≡ false) qs

abbrev pub value_at : Bool → Text → Option Value → Option Sample
value_at dotted child none = none
value_at false child (some (plain s)) = some s
value_at true child (some (plain s)) = none
value_at false child (some (object fields)) = none
value_at true child (some (object fields)) = get fields child

-- What an example has for a name: a value of its own, or a field of its parent.
abbrev pub lookup : Dict Text Value → Text → Option Sample
lookup params name = value_at (has_dot name) (child_key name) (get params (top_key name))

abbrev pub plain_value : Option Value → Bool
plain_value none = false
plain_value (some (plain s)) = true
plain_value (some (object fields)) = false

-- A round for a name with a dot, or without one.
abbrev pub add_at : Bool → Dict Text Value → Text → Text → Sample → Dict Text Value
add_at true d top child s = add_child d top child s (get d top)
add_at false d top child s = put d top (plain s)

pub add_example-add_at :
    (d : Dict Text Value) (p : ParamField)
    → add_example d p ≡ (
        if p.is_required
        then add_at
            (has_dot p.name)
            d
            (top_key p.name)
            (child_key p.name)
            (get_json_example_value p.type)
        else d)
unfolding add_example
add_example-add_at d p = elim (Bool-cases p.is_required) [
  | inr f ↦ rw (f, if◌then◌else◌) refl
  | inl t ↦ elim (Bool-cases (has_dot p.name)) [
    | inl u ↦ rw (t, u, if◌then◌else◌) refl
    | inr u ↦ rw (t, u, if◌then◌else◌) refl
  ]
]

-- What a round leaves at a key.
get-add_child :
    (d : Dict Text Value) (top child k : Text) (s : Sample) (o : Option Value)
    → get d top ≡ o
    → top == k ≡ false
    → get (add_child d top child s o) k ≡ get d k
get-add_child d top child k s none e h =
    get-put d top k (object (put [] child s)) ∙ rw (h, if◌then◌else◌) refl
get-add_child d top child k s (some (plain v)) e h = refl
get-add_child d top child k s (some (object fields)) e h =
    get-put d top k (object (put fields child s)) ∙ rw (h, if◌then◌else◌) refl

pub get-add_at :
    (b : Bool) (d : Dict Text Value) (top child k : Text) (s : Sample)
    → top == k ≡ false
    → get (add_at b d top child s) k ≡ get d k
get-add_at true d top child k s h = get-add_child d top child k s (get d top) refl h
get-add_at false d top child k s h = get-put d top k (plain s) ∙ rw (h, if◌then◌else◌) refl

pub put_here : (d : Dict Text Value) (k : Text) (v : Value) → get (put d k v) k ≡ some v
put_here d k v = get-put d k k v ∙ rw ((==_iff k k).1 refl, if◌then◌else◌) refl

-- Another field of the same object stays.
pub sibling_stays :
    (d : Dict Text Value) (top child other : Text) (s : Sample) (o : Option Value)
    → get d top ≡ o
    → child == other ≡ false
    → value_at true other (get (add_child d top child s o) top) ≡ value_at true other o
unfolding get put
sibling_stays d top child other s none e h =
    ap (value_at true other) (put_here d top (object (put [] child s))) ∙ rw (h, if◌then◌else◌) refl
sibling_stays d top child other s (some (plain v)) e h = ap (value_at true other) e
sibling_stays d top child other s (some (object fields)) e h =
    ap (value_at true other) (put_here d top (object (put fields child s)))
    ∙ get-put fields child other s
    ∙ rw (h, if◌then◌else◌) refl

pub field_set :
    (d : Dict Text Value) (top child : Text) (s : Sample) (o : Option Value)
    → get d top ≡ o
    → plain_value o ≡ false
    → value_at true child (get (add_child d top child s o) top) ≡ some s
unfolding get put
field_set d top child s none e h =
    ap (value_at true child) (put_here d top (object (put [] child s)))
    ∙ rw ((==_iff child child).1 refl, if◌then◌else◌) refl
field_set d top child s (some (plain v)) e h = absurd (ground (arith, h))
field_set d top child s (some (object fields)) e h =
    ap (value_at true child) (put_here d top (object (put fields child s)))
    ∙ get-put fields child child s
    ∙ rw ((==_iff child child).1 refl, if◌then◌else◌) refl

-- Where a value of its own stands, a round without a dot put it.
pub plain_stays :
    (d : Dict Text Value) (top child : Text) (s : Sample) (o : Option Value)
    → get d top ≡ o
    → plain_value (get (add_child d top child s o) top) ≡ plain_value o
plain_stays d top child s none e = ap plain_value (put_here d top (object (put [] child s)))
plain_stays d top child s (some (plain v)) e = ap plain_value e
plain_stays d top child s (some (object fields)) e =
    ap plain_value (put_here d top (object (put fields child s)))
