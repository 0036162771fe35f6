-- ===== src/Utils/Slices/Unique.antt =====
-- `UniqueSlice` and `SliceFindIndex` of utils/ against plain specifications.
use mathlib.Core.List.{append_assoc, append-nil}
use aqi.Prelude.{
  ℕ, suc, ◌+◌, ◌≡◌, refl, ap, ◌∙◌, Bool, true, false, not, List, [], ◌∷◌, ◌++◌, some, Comparable,
  ◌==◌, contains, filter, HasNoRepeats, filter-filter, filter_congr, contains-filter, get_elem?,
  take, arith, Bool-cases, inl, inr,
}
use aqi.Prelude.Int.{ℤ, pos, negsuc}
use aqi.Utils.Slices.{unique_loop, unique_slice, find_loop, slice_find_index}

module _ {ℓ} {A : Type ℓ} ⦃e : Comparable A⦄ where
  -- The first occurrence of each element, in order.
  abbrev pub firsts : List A → List A
  firsts [] = []
  firsts (x ∷ xs) = x ∷ filter (λ y. not (y == x)) (firsts xs)

  abbrev fresh : List A → A → Bool
  fresh seen y = not (contains y seen)

  skip_seen :
      (x : A) (seen xs : List A)
      → contains x seen ≡ true
      → filter (fresh seen) (filter (λ y. not (y == x)) xs) ≡ filter (fresh seen) xs
  skip_seen x seen xs h =
      filter-filter (fresh seen) (λ y. not (y == x)) xs
      ∙ filter_congr _ _ (λ y. ground (arith, e.equal_iff y x)) xs

  keep_fresh :
      (x : A) (seen xs : List A)
      → filter (fresh seen) (filter (λ y. not (y == x)) xs) ≡ filter (fresh (x ∷ seen)) xs
  keep_fresh x seen xs =
      filter-filter (fresh seen) (λ y. not (y == x)) xs ∙ filter_congr _ _ (λ y. ground arith) xs

  unique_loop-firsts :
      (xs seen unique : List A)
      → unique_loop xs seen unique ≡ unique ++ filter (fresh seen) (firsts xs)
  unfolding unique_loop
  unique_loop-firsts [] seen unique = rw append-nil
  unique_loop-firsts (x ∷ xs) seen unique = ground (
    arith,
    unique_loop-firsts xs seen unique,
    unique_loop-firsts xs (x ∷ seen) (unique ++ x ∷ []),
    skip_seen x seen (firsts xs),
    keep_fresh x seen (firsts xs),
    append_assoc unique (x ∷ []) (filter (fresh (x ∷ seen)) (firsts xs)),
  )

  filter_all : (xs : List A) → filter (fresh []) xs ≡ xs
  filter_all [] = refl
  filter_all (x ∷ xs) = ap (λ l. x ∷ l) (filter_all xs)

  -- `UniqueSlice` returns the first occurrences of the elements, in the order of the input.
  pub unique_slice-firsts : (xs : List A) → unique_slice xs ≡ firsts xs
  unfolding unique_slice
  unique_slice-firsts xs = unique_loop-firsts xs [] [] ∙ filter_all (firsts xs)

  contains-firsts : (a : A) (xs : List A) → contains a (firsts xs) ≡ contains a xs
  contains-firsts a [] = refl
  contains-firsts a (x ∷ xs) =
      rw (contains-filter (λ y. not (y == x)) a (firsts xs), contains-firsts a xs) (ground arith)

  filter-HasNoRepeats : (p : A → Bool) (xs : List A) → HasNoRepeats xs → HasNoRepeats (filter p xs)
  filter-HasNoRepeats p [] h = tt
  filter-HasNoRepeats p (x ∷ xs) h = elim (Bool-cases (p x)) [
    | inl t ↦ rw t (rw (contains-filter p x xs) (ground (arith, h.0)), filter-HasNoRepeats p xs h.1)
    | inr f ↦ rw f (filter-HasNoRepeats p xs h.1)
  ]

  firsts-HasNoRepeats : (xs : List A) → HasNoRepeats (firsts xs)
  firsts-HasNoRepeats [] = tt
  firsts-HasNoRepeats (x ∷ xs) = (
    rw (contains-filter (λ y. not (y == x)) x (firsts xs)) (ground (arith, e.equal_iff x x)),
    filter-HasNoRepeats _ (firsts xs) (firsts-HasNoRepeats xs),
  )

  -- `UniqueSlice` keeps exactly the elements of its input, and each of them once.
  pub unique_slice_set :
      (xs : List A)
      → HasNoRepeats (unique_slice xs) × ((a : A) → contains a (unique_slice xs) ≡ contains a xs)
  unique_slice_set xs =
      rw (unique_slice-firsts xs) (firsts-HasNoRepeats xs, λ a. contains-firsts a xs)

module _ {A : Type 0} ⦃e : Comparable A⦄ where
  -- What an index returned by `SliceFindIndex` says of the input, searched from `k` on.
  abbrev pub Finds : List A → A → ℕ → ℤ → Type 0
  Finds xs a k (pos i) =
      (j : ℕ) × (i ≡ k + j) × (get_elem? xs j ≡ some a) × (contains a (take j xs) ≡ false)
  Finds xs a k (negsuc i) = (i ≡ 0) × (contains a xs ≡ false)

  Finds-later :
      (x : A) (xs : List A) (a : A) (k : ℕ) (r : ℤ)
      → (x == a) ≡ false
      → Finds xs a (k + 1) r
      → Finds (x ∷ xs) a k r
  Finds-later x xs a k (pos i) n (j, eq, at, before) =
      (suc j, omega arith, at, ground (arith, e.equal_iff x a, e.equal_iff a x))
  Finds-later x xs a k (negsuc i) n h = (h.0, ground (arith, e.equal_iff x a, e.equal_iff a x))

  find_loop-Finds : (xs : List A) (a : A) (k : ℕ) → Finds xs a k (find_loop xs a k)
  unfolding find_loop
  find_loop-Finds [] a k = (refl, refl)
  find_loop-Finds (x ∷ xs) a k = elim (Bool-cases (x == a)) [
    | inl t ↦ rw (t, find_loop) (0, omega arith, ap some ((e.equal_iff x a).0 t), refl)
    | inr f ↦ rw (f, find_loop) (Finds-later x xs a k _ f (find_loop-Finds xs a (k + 1)))
  ]

  -- `SliceFindIndex` returns the index of the first occurrence, and -1 exactly when there is none.
  pub slice_find_index-Finds : (xs : List A) (a : A) → Finds xs a 0 (slice_find_index xs a)
  unfolding slice_find_index
  slice_find_index-Finds xs a = find_loop-Finds xs a 0
