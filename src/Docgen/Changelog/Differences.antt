-- ===== src/Docgen/Changelog/Differences.antt =====
-- What `added` and `removed` of a changelog (internal/docgen/generator.go) say.
use aqi.Prelude.{
  not, ◌&&◌, ◌||◌, List, [], ◌∷◌, Option, none, some, ◌≡◌, refl, ap, ◌∙◌, contains, contains-filter,
  filter, ==_iff, arith,
}
use aqi.Prelude.Texts.{Text, text_lt, comparable_text}
use aqi.Prelude.Sorting.{IsSorted, contains-sort_texts, sort_texts-IsSorted}
use aqi.Docgen.Changelog.{Snapshot, to_set, minus, compare_actions}

pub contains-to_set : (a : Text) (names : List Text) → contains a (to_set names) ≡ contains a names
unfolding to_set
contains-to_set a [] = refl
contains-to_set a (name ∷ names) =
    ground (arith, contains-to_set a names, contains-to_set name names, ==_iff a name)

pub contains-minus :
    (a : Text) (xs ys : List Text)
    → contains a (minus xs ys) ≡ (contains a xs && not (contains a ys))
unfolding minus
contains-minus a xs ys =
    contains-sort_texts a (filter (λ b. not (contains b ys)) xs)
    ∙ contains-filter (λ b. not (contains b ys)) a xs

minus-IsSorted : (xs ys : List Text) → IsSorted text_lt (minus xs ys)
unfolding minus
minus-IsSorted xs ys = sort_texts-IsSorted (filter (λ b. not (contains b ys)) xs)

-- The actions of the last snapshot, none where there is no snapshot.
abbrev pub previous : Option Snapshot → List Text
previous none = []
previous (some s) = s.actions

-- `added` is what the current actions have and the last snapshot has not, `removed` the reverse;
-- both are sorted. So the last snapshot with the changelog applied is the current set of actions.
pub compare_actions_applies :
    (current : List Text) (last : Option Snapshot)
    → (let (added, removed) = compare_actions current last in
        ((a : Text) → contains a added ≡ (contains a current && not (contains a (previous last))))
        × ((a : Text)
            → contains a removed ≡ (contains a (previous last) && not (contains a current)))
        × ((a : Text)
            → ((contains a (previous last) && not (contains a removed)) || contains a added)
              ≡ contains a current)
        × IsSorted text_lt added
        × IsSorted text_lt removed)
unfolding compare_actions
compare_actions_applies current none = (
  λ a. contains-sort_texts a current ∙ ground arith,
  λ a. refl,
  λ a. contains-sort_texts a current,
  sort_texts-IsSorted current,
  tt,
)
compare_actions_applies current (some s) =
    let old : List Text = to_set s.actions in
    (
      λ a.
          contains-minus a current old
          ∙ ap (λ b. contains a current && not b) (contains-to_set a s.actions),
      λ a.
          contains-minus a old current
          ∙ ap (λ b. b && not (contains a current)) (contains-to_set a s.actions),
      λ a. ground (
        arith,
        contains-minus a current old,
        contains-minus a old current,
        contains-to_set a s.actions,
      ),
      minus-IsSorted current old,
      minus-IsSorted old current,
    )
