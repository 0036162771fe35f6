-- ===== src/Docgen/Groups/Keys.antt =====
-- The groups that internal/docgen/generator.go writes: their order and their actions.
use mathlib.Core.List.{foldl}
use aqi.Prelude.{
  Bool, not, ◌||◌, List, [], ◌∷◌, ◌++◌, ◌≡◌, refl, sym, ap, ◌∙◌, ◌==◌, ==_iff, comparable_nat,
  contains, filter, HasNoRepeats, if◌then◌else◌, Bool-cases, inl, inr, arith,
}
use aqi.Prelude.Dict.{Dict, get, put}
use aqi.Prelude.Texts.{Text, comparable_text, is_empty}
use aqi.Prelude.Sorting.{sort_by}
use aqi.Docgen.Doc.{ActionDoc}
use aqi.Docgen.Groups.{
  group_key, list_or_empty, add_to_group, group_by_action_prefix, group_lt, keys_of, sorted_keys,
  arrange,
}
use aqi.Docgen.Groups.Partition.{
  count, count_all, count_key, all-foldl, sum-keys, all-arrange_keys, sum-sort_by,
}

contains-keys_put :
    (d : Dict Text (List ActionDoc)) (k : Text) (v : List ActionDoc) (c : Text)
    → contains c (keys_of (put d k v)) ≡ (c == k || contains c (keys_of d))
unfolding put
contains-keys_put [] k v c = refl
contains-keys_put ((j, w) ∷ d) k v c = elim (Bool-cases (j == k)) [
  | inl t ↦ rw (t, if◌then◌else◌) (ground (arith, t, ==_iff j k, ==_iff c k, ==_iff c j))
  | inr f ↦ rw (f, if◌then◌else◌) (ground (arith, contains-keys_put d k v c))
]

put-HasNoRepeats :
    (d : Dict Text (List ActionDoc)) (k : Text) (v : List ActionDoc)
    → HasNoRepeats (keys_of d)
    → HasNoRepeats (keys_of (put d k v))
unfolding put
put-HasNoRepeats [] k v h = (refl, tt)
put-HasNoRepeats ((j, w) ∷ d) k v h = elim (Bool-cases (j == k)) [
  | inl t ↦
      let same : j ≡ k = (==_iff j k).0 t in
      rw (t, if◌then◌else◌) (ap (λ c. contains c (keys_of d)) (sym same) ∙ h.0, h.1)
  | inr f ↦
      rw (f, if◌then◌else◌)
        (contains-keys_put d k v j ∙ ground (arith, f, h.0), put-HasNoRepeats d k v h.1)
]

foldl-HasNoRepeats :
    (actions : List ActionDoc) (d : Dict Text (List ActionDoc))
    → HasNoRepeats (keys_of d)
    → HasNoRepeats (keys_of (foldl add_to_group d actions))
unfolding add_to_group
foldl-HasNoRepeats [] d h = h
foldl-HasNoRepeats (a ∷ actions) d h =
    let k = group_key a.name in
    foldl-HasNoRepeats actions (add_to_group d a)
      (put-HasNoRepeats d k (list_or_empty (get d k) ++ a ∷ []) h)

-- Each action stands in exactly one group, as often as it is given: a test holds for as many of the
-- actions in the groups as of the actions that are arranged.
pub count-arrange :
    (p : ActionDoc → Bool) (actions : List ActionDoc)
    → count_all p (arrange actions) ≡ count p actions
unfolding arrange group_by_action_prefix sorted_keys
count-arrange p actions =
    let d : Dict Text (List ActionDoc) = foldl add_to_group [] actions in
    omega (
      arith,
      all-arrange_keys p d (sort_by group_lt (keys_of d)),
      sum-sort_by (count_key p d) group_lt (keys_of d),
      sum-keys p d (foldl-HasNoRepeats actions [] tt),
      all-foldl p actions [],
    )

-- The actions whose name has the key.
abbrev pub of_key : Text → List ActionDoc → List ActionDoc
of_key k actions = filter (λ a. group_key a.name == k) actions

-- A key stands in the map where its group is not empty.
abbrev IsFilled : Dict Text (List ActionDoc) → Type 0
IsFilled d = (k : Text) → is_empty (list_or_empty (get d k)) ≡ not (contains k (keys_of d))
