-- ===== src/Prelude/Sorting.antt =====
-- Insertion sort for Go's package sort, by a test `x < y`, and what it keeps.
use Prim.Native.Nat.{suc}
use mathlib.Core.Path.{◌≡◌, refl, ap, ◌∙◌}
use mathlib.Core.Logic.{inl, inr}
use mathlib.Core.Bool.{Bool, true, false, ◌||◌}
use mathlib.Core.List.{List, [], ◌∷◌}
use native.Mathlib.Omega.{arith}
use aqi.Prelude.Tests.{Comparable, ◌==◌, comparable_nat, if◌then◌else◌, Bool-cases}
use aqi.Prelude.Lists.{contains, length}
use aqi.Prelude.Texts.{Text, text_lt, comparable_text}

module _ {ℓ} {A : Type ℓ} (lt : A → A → Bool) where
  abbrev pub insert_by : A → List A → List A
  insert_by x [] = x ∷ []
  insert_by x (y ∷ ys) = let rest = insert_by x ys in if lt y x then y ∷ rest else x ∷ y ∷ ys

  -- Elements of which neither is less keep their order.
  unfoldable pub sort_by : List A → List A
  sort_by [] = []
  sort_by (x ∷ xs) = insert_by x (sort_by xs)

  -- No element is less than the one before it.
  abbrev pub IsSorted : List A → Type 0
  IsSorted [] = Unit
  IsSorted (x ∷ []) = Unit
  IsSorted (x ∷ y ∷ ys) = (lt y x ≡ false) × IsSorted (y ∷ ys)

  abbrev pub IsAsymmetric : Type ℓ
  IsAsymmetric = (x y : A) → lt x y ≡ true → lt y x ≡ false

  -- An element that may stand before a sorted list.
  abbrev FitsBefore : A → List A → Type 0
  FitsBefore x [] = Unit
  FitsBefore x (y ∷ ys) = lt y x ≡ false

  IsSorted-cons : (x : A) (ys : List A) → FitsBefore x ys → IsSorted ys → IsSorted (x ∷ ys)
  IsSorted-cons x [] f s = tt
  IsSorted-cons x (y ∷ ys) f s = (f, s)

  fits_insert :
      (a x : A) (ys : List A)
      → IsAsymmetric
      → lt a x ≡ true
      → IsSorted (a ∷ ys)
      → FitsBefore a (insert_by x ys)
  fits_insert a x [] asym h s = asym a x h
  fits_insert a x (y ∷ ys) asym h s = elim (Bool-cases (lt y x)) [
    | inl t ↦ rw (t, if◌then◌else◌) s.0
    | inr f ↦ rw (f, if◌then◌else◌) (asym a x h)
  ]

  IsSorted-tail : (x : A) (ys : List A) → IsSorted (x ∷ ys) → IsSorted ys
  IsSorted-tail x [] s = tt
  IsSorted-tail x (y ∷ ys) s = s.1

  insert_by-IsSorted :
      (x : A) (ys : List A) → IsAsymmetric → IsSorted ys → IsSorted (insert_by x ys)
  insert_by-IsSorted x [] asym s = tt
  insert_by-IsSorted x (y ∷ ys) asym s = elim (Bool-cases (lt y x)) [
    | inl t ↦
        rw (t, if◌then◌else◌)
          (IsSorted-cons y (insert_by x ys) (fits_insert y x ys asym t s)
            (insert_by-IsSorted x ys asym (IsSorted-tail y ys s)))
    | inr f ↦ rw (f, if◌then◌else◌) (f, s)
  ]

  pub sort_by-IsSorted : (xs : List A) → IsAsymmetric → IsSorted (sort_by xs)
  unfolding sort_by
  sort_by-IsSorted [] asym = tt
  sort_by-IsSorted (x ∷ xs) asym = insert_by-IsSorted x (sort_by xs) asym (sort_by-IsSorted xs asym)

  length-insert_by : (x : A) (ys : List A) → length (insert_by x ys) ≡ suc (length ys)
  length-insert_by x [] = refl
  length-insert_by x (y ∷ ys) = elim (Bool-cases (lt y x)) [
    | inl t ↦ rw (t, if◌then◌else◌) (ap suc (length-insert_by x ys))
    | inr f ↦ rw (f, if◌then◌else◌) refl
  ]

  pub length-sort_by : (xs : List A) → length (sort_by xs) ≡ length xs
  unfolding sort_by
  length-sort_by [] = refl
  length-sort_by (x ∷ xs) = length-insert_by x (sort_by xs) ∙ ap suc (length-sort_by xs)

module _ {ℓ} {A : Type ℓ} ⦃e : Comparable A⦄ (lt : A → A → Bool) where
  contains-insert_by :
      (a x : A) (ys : List A) → contains a (insert_by lt x ys) ≡ (a == x || contains a ys)
  contains-insert_by a x [] = refl
  contains-insert_by a x (y ∷ ys) = ground (arith, contains-insert_by a x ys)

  pub contains-sort_by : (a : A) (xs : List A) → contains a (sort_by lt xs) ≡ contains a xs
  unfolding sort_by
  contains-sort_by a [] = refl
  contains-sort_by a (x ∷ xs) =
      contains-insert_by a x (sort_by lt xs) ∙ ap (λ b. a == x || b) (contains-sort_by a xs)

-- `sort.Strings`
unfoldable pub sort_texts : List Text → List Text
sort_texts ts = sort_by text_lt ts

pub text_lt-asymmetric : (s t : Text) → text_lt s t ≡ true → text_lt t s ≡ false
text_lt-asymmetric s [] h = absurd (ground (arith, h))
text_lt-asymmetric [] (y ∷ t) h = refl
text_lt-asymmetric (x ∷ s) (y ∷ t) h = ground (arith, h, text_lt-asymmetric s t)

pub contains-sort_texts : (a : Text) (ts : List Text) → contains a (sort_texts ts) ≡ contains a ts
unfolding sort_texts
contains-sort_texts a ts = contains-sort_by text_lt a ts

pub sort_texts-IsSorted : (ts : List Text) → IsSorted text_lt (sort_texts ts)
unfolding sort_texts
sort_texts-IsSorted ts = sort_by-IsSorted text_lt ts text_lt-asymmetric
