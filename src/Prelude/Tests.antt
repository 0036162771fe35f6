-- ===== src/Prelude/Tests.antt =====
-- Boolean tests on native numbers and texts, and conditionals.
use Prim.Native.Nat.{ℕ, compare, Ordering}
use Prim.Native.String.{String}
use mathlib.Core.Path.{◌≡◌, refl}
use mathlib.Core.Logic.{◌⊎◌, inl, inr, ◌↔◌}
use mathlib.Core.Bool.{Bool, true, false}
use mathlib.Core.Option.{Option, none, some}
use native.Mathlib.Omega.{arith}
use text.Mathlib.Text.{◌==◌ as text_eq}
use text.Mathlib.TextEquality.{eq_iff}

abbrev pub ltb : ℕ → ℕ → Bool
ltb a b = elim (compare a b) [ Ordering.lt ↦ true | _ ↦ false ]

abbrev pub leb : ℕ → ℕ → Bool
leb a b = elim (compare a b) [ Ordering.gt ↦ false | _ ↦ true ]

abbrev pub nat_beq : ℕ → ℕ → Bool
nat_beq a b = elim (compare a b) [ Ordering.eq ↦ true | _ ↦ false ]

infix 1 if◌then◌else◌
abbrev pub if◌then◌else◌ {ℓ} : {A : Type ℓ} → Bool → A → A → A
if true then x else y = x
if false then x else y = y

pub nat_beq_iff : (a b : ℕ) → (nat_beq a b ≡ true) ↔ (a ≡ b)
nat_beq_iff a b = (λ h. ground arith, λ h. ground arith)

-- Types that Go compares with `==`.
pub record Comparable {ℓ} (K : Type ℓ) : Type ℓ where
  pub equal : K → K → Bool
  pub equal_iff : (k l : K) → (equal k l ≡ true) ↔ (k ≡ l)

instance abbrev pub comparable_nat : Comparable ℕ
comparable_nat = record { equal = nat_beq; equal_iff = nat_beq_iff }

module _ {ℓ} {K : Type ℓ} ⦃e : Comparable K⦄ where
  infix 50 ◌==◌
  abbrev pub ◌==◌ : K → K → Bool
  k == l = e.equal k l

  pub ==_iff : (k l : K) → (k == l ≡ true) ↔ (k ≡ l)
  ==_iff k l = e.equal_iff k l

instance abbrev pub comparable_string : Comparable String
comparable_string = record { equal = text_eq; equal_iff = eq_iff }

pub Bool-cases : (b : Bool) → (b ≡ true) ⊎ (b ≡ false)
Bool-cases true = inl refl
Bool-cases false = inr refl

pub Option-cases {ℓ} : {A : Type ℓ} (o : Option A) → (o ≡ none) ⊎ ((a : A) × (o ≡ some a))
Option-cases none = inl refl
Option-cases (some a) = inr (a, refl)

pub if_intro {ℓ κ} :
    {A : Type ℓ} (P : A → Type κ) (b : Bool) (x y : A) → P x → P y → P (if b then x else y)
if_intro P true x y h k = h
if_intro P false x y h k = k

pub option_intro {ℓ κ μ} :
    {A : Type ℓ} {B : Type κ} (P : B → Type μ) (o : Option A) (x : B) (f : A → B)
    → P x
    → ((a : A) → P (f a))
    → P (elim o [ none ↦ x | some a ↦ f a ])
option_intro P none x f h k = h
option_intro P (some a) x f h k = k a
