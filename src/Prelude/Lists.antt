-- ===== src/Prelude/Lists.antt =====
-- List functions over the native numbers, under the library's names.
use Prim.Native.Nat.{ℕ, zero, suc, ◌+◌}
use mathlib.Core.Path.{◌≡◌, refl, ◌∙◌}
use mathlib.Core.Option.{Option, none, some}
use mathlib.Core.Bool.{Bool, false, ◌&&◌, ◌||◌}
use mathlib.Core.List.{List, [], ◌∷◌, ◌++◌}
use native.Mathlib.Omega.{arith}
use aqi.Prelude.Tests.{Comparable, ◌==◌, if◌then◌else◌}

module _ {ℓ} {A : Type ℓ} where
  abbrev pub length : List A → ℕ
  length [] = 0
  length (x ∷ xs) = suc (length xs)

  abbrev pub get_elem? : List A → ℕ → Option A
  get_elem? [] i = none
  get_elem? (x ∷ xs) zero = some x
  get_elem? (x ∷ xs) (suc i) = get_elem? xs i

  abbrev pub set : List A → ℕ → A → List A
  set [] i v = []
  set (x ∷ xs) zero v = v ∷ xs
  set (x ∷ xs) (suc i) v = x ∷ set xs i v

  abbrev pub take : ℕ → List A → List A
  take zero xs = []
  take (suc n) [] = []
  take (suc n) (x ∷ xs) = x ∷ take n xs

  abbrev pub drop : ℕ → List A → List A
  drop zero xs = xs
  drop (suc n) [] = []
  drop (suc n) (x ∷ xs) = drop n xs

  pub length-append : (xs ys : List A) → length (xs ++ ys) ≡ length xs + length ys
  length-append [] ys = omega arith
  length-append (x ∷ xs) ys = omega (arith, length-append xs ys)

abbrev pub All {ℓ κ} : {A : Type ℓ} → (A → Type κ) → List A → Type κ
All P [] = Unit
All P (x ∷ xs) = P x × All P xs

-- Whether a list holds a key.
abbrev pub contains {ℓ} : {A : Type ℓ} ⦃e : Comparable A⦄ → A → List A → Bool
contains a [] = false
contains a (x ∷ xs) = a == x || contains a xs

module _ {ℓ} {A : Type ℓ} where
  -- Elements that pass a Boolean test.
  abbrev pub filter : (A → Bool) → List A → List A
  filter p [] = []
  filter p (x ∷ xs) = let rest = filter p xs in if p x then x ∷ rest else rest

  pub filter-filter :
      (p q : A → Bool) (xs : List A) → filter p (filter q xs) ≡ filter (λ x. q x && p x) xs
  filter-filter p q [] = refl
  filter-filter p q (x ∷ xs) = ground (arith, filter-filter p q xs)

  pub filter_congr :
      (p q : A → Bool) → ((x : A) → p x ≡ q x) → (xs : List A) → filter p xs ≡ filter q xs
  filter_congr p q h [] = refl
  filter_congr p q h (x ∷ xs) = ground (arith, h x, filter_congr p q h xs)

  pub filter-append :
      (p : A → Bool) (xs ys : List A) → filter p (xs ++ ys) ≡ filter p xs ++ filter p ys
  filter-append p [] ys = refl
  filter-append p (x ∷ xs) ys = ground (arith, filter-append p xs ys)

module _ {ℓ} {A : Type ℓ} ⦃e : Comparable A⦄ where
  pub contains-append :
      (a : A) (xs ys : List A) → contains a (xs ++ ys) ≡ (contains a xs || contains a ys)
  contains-append a [] ys = refl
  contains-append a (x ∷ xs) ys = ground (arith, contains-append a xs ys)

  pub contains-filter :
      (p : A → Bool) (a : A) (xs : List A) → contains a (filter p xs) ≡ (contains a xs && p a)
  contains-filter p a [] = refl
  contains-filter p a (x ∷ xs) = ground (arith, contains-filter p a xs, e.equal_iff a x)

  -- No element stands twice.
  abbrev pub HasNoRepeats : List A → Type ℓ
  HasNoRepeats [] = Unit
  HasNoRepeats (x ∷ xs) = (contains x xs ≡ false) × HasNoRepeats xs

  pub HasNoRepeats-snoc :
      (xs : List A) (a : A) → HasNoRepeats xs → contains a xs ≡ false → HasNoRepeats (xs ++ a ∷ [])
  HasNoRepeats-snoc [] a h n = (refl, tt)
  HasNoRepeats-snoc (x ∷ xs) a h n = (
    contains-append x xs (a ∷ []) ∙ ground (arith, h.0, n, e.equal_iff x a, e.equal_iff a x),
    HasNoRepeats-snoc xs a h.1 (ground (arith, n)),
  )
