-- ===== src/Docgen/Groups/Partition.antt =====
-- The groups of actions of internal/docgen/generator.go hold each action once.
use mathlib.Core.List.{foldl}
use aqi.Prelude.{
  ℕ, ◌+◌, Bool, true, false, List, [], ◌∷◌, ◌++◌, ◌≡◌, refl, ap, ◌∙◌, ◌==◌, ==_iff, comparable_nat,
  contains, HasNoRepeats, if◌then◌else◌, Bool-cases, inl, inr, arith,
}
use aqi.Prelude.Dict.{Dict, get, put}
use aqi.Prelude.Texts.{Text, comparable_text, is_empty, text_lt}
use aqi.Prelude.Sorting.{insert_by, sort_by}
use aqi.Docgen.Doc.{ActionDoc}
use aqi.Docgen.Groups.{group_key, list_or_empty, add_to_group, keys_of, sort_actions, arrange_keys}

-- The sum of a number for each element.
module _ {A : Type 0} (f : A → ℕ) where
  abbrev pub sum : List A → ℕ
  sum [] = 0
  sum (x ∷ xs) = f x + sum xs

  sum-append : (xs ys : List A) → sum (xs ++ ys) ≡ sum xs + sum ys
  sum-append [] ys = omega arith
  sum-append (x ∷ xs) ys = omega (arith, sum-append xs ys)

  sum-insert_by : (lt : A → A → Bool) (x : A) (ys : List A) → sum (insert_by lt x ys) ≡ f x + sum ys
  sum-insert_by lt x [] = refl
  sum-insert_by lt x (y ∷ ys) = elim (Bool-cases (lt y x)) [
    | inl t ↦ rw (t, if◌then◌else◌) (omega (arith, sum-insert_by lt x ys))
    | inr g ↦ rw (g, if◌then◌else◌) refl
  ]

  pub sum-sort_by : (lt : A → A → Bool) (xs : List A) → sum (sort_by lt xs) ≡ sum xs
  unfolding sort_by
  sum-sort_by lt [] = refl
  sum-sort_by lt (x ∷ xs) = omega (arith, sum-insert_by lt x (sort_by lt xs), sum-sort_by lt xs)

-- How many actions of a list pass a test.
abbrev pub count : (ActionDoc → Bool) → List ActionDoc → ℕ
count p actions = sum (λ a. if p a then 1 else 0) actions

abbrev pub count_all : (ActionDoc → Bool) → List (Text × List ActionDoc) → ℕ
count_all p groups = sum (λ (g : Text × List ActionDoc). count p g.1) groups

module _ (p : ActionDoc → Bool) where
  all-put :
      (d : Dict Text (List ActionDoc)) (k : Text) (v : List ActionDoc)
      → count_all p (put d k v) + count p (list_or_empty (get d k)) ≡ count_all p d + count p v
  unfolding get put
  all-put [] k v = omega arith
  all-put ((j, w) ∷ d) k v = elim (Bool-cases (j == k)) [
    | inl t ↦ rw (t, if◌then◌else◌) (omega arith)
    | inr f ↦ rw (f, if◌then◌else◌) (omega (arith, all-put d k v))
  ]

  all-add_to_group :
      (d : Dict Text (List ActionDoc)) (a : ActionDoc)
      → count_all p (add_to_group d a) ≡ count_all p d + (if p a then 1 else 0)
  unfolding add_to_group
  all-add_to_group d a =
      let old = list_or_empty (get d (group_key a.name)) in
      omega (
        arith,
        all-put d (group_key a.name) (old ++ a ∷ []),
        sum-append (λ b. if p b then 1 else 0) old (a ∷ []),
      )

  pub all-foldl :
      (actions : List ActionDoc) (d : Dict Text (List ActionDoc))
      → count_all p (foldl add_to_group d actions) ≡ count_all p d + count p actions
  all-foldl [] d = omega arith
  all-foldl (a ∷ actions) d =
      omega (arith, all-foldl actions (add_to_group d a), all-add_to_group d a)

  -- A group that no key names does not count.
  abbrev pub count_key : Dict Text (List ActionDoc) → Text → ℕ
  count_key d k = count p (list_or_empty (get d k))

  keys_behind :
      (j : Text) (w : List ActionDoc) (d : Dict Text (List ActionDoc)) (ks : List Text)
      → contains j ks ≡ false
      → sum (count_key ((j, w) ∷ d)) ks ≡ sum (count_key d) ks
  unfolding get
  keys_behind j w d [] h = refl
  keys_behind j w d (k ∷ ks) h =
      let other : j == k ≡ false = ground (arith, h) in
      rw (other, if◌then◌else◌)
        (ap (λ n. count_key d k + n) (keys_behind j w d ks (ground (arith, h))))

  pub sum-keys :
      (d : Dict Text (List ActionDoc))
      → HasNoRepeats (keys_of d)
      → sum (count_key d) (keys_of d) ≡ count_all p d
  unfolding get
  sum-keys [] h = refl
  sum-keys ((j, w) ∷ d) h =
      rw ((==_iff j j).1 refl, if◌then◌else◌)
        (ap (λ n. count p w + n) (keys_behind j w d (keys_of d) h.0 ∙ sum-keys d h.1))

  count-empty : (actions : List ActionDoc) → is_empty actions ≡ true → count p actions ≡ 0
  count-empty [] h = refl
  count-empty (a ∷ actions) h = absurd (ground (arith, h))

  pub all-arrange_keys :
      (d : Dict Text (List ActionDoc)) (ks : List Text)
      → count_all p (arrange_keys d ks) ≡ sum (count_key d) ks
  unfolding arrange_keys sort_actions
  all-arrange_keys d [] = refl
  all-arrange_keys d (k ∷ ks) =
      let actions = list_or_empty (get d k) in
      let rest = all-arrange_keys d ks in
      elim (Bool-cases (is_empty actions)) [
        | inl t ↦ rw (t, if◌then◌else◌) (omega (arith, count-empty actions t, rest))
        | inr f ↦
            rw (f, if◌then◌else◌)
              (omega (
                arith,
                sum-sort_by (λ a. if p a then 1 else 0) (λ (a b : ActionDoc). text_lt a.name b.name)
                    actions,
                rest,
              ))
      ]
