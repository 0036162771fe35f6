-- ===== src/Prelude/Int.antt =====
-- Integers over the native numbers.
use Prim.Native.Nat.{ℕ}
use mathlib.Core.Path.{◌≡◌}
use mathlib.Core.Logic.{◌↔◌}
use mathlib.Core.Bool.{Bool, true, false}
use native.Mathlib.Omega.{arith}
use aqi.Prelude.Tests.{Comparable, nat_beq}

pub data ℤ : Type 0 where
  pos : ℕ → ℤ
  negsuc : ℕ → ℤ

abbrev pub int_beq : ℤ → ℤ → Bool
int_beq (pos a) (pos b) = nat_beq a b
int_beq (pos a) (negsuc b) = false
int_beq (negsuc a) (pos b) = false
int_beq (negsuc a) (negsuc b) = nat_beq a b

pub int_beq_iff : (a b : ℤ) → (int_beq a b ≡ true) ↔ (a ≡ b)
int_beq_iff (pos a) (pos b) = (λ h. ground (arith, h), λ h. ground (arith, h))
int_beq_iff (pos a) (negsuc b) = (λ h. ground (arith, h), λ h. ground (arith, h))
int_beq_iff (negsuc a) (pos b) = (λ h. ground (arith, h), λ h. ground (arith, h))
int_beq_iff (negsuc a) (negsuc b) = (λ h. ground (arith, h), λ h. ground (arith, h))

instance abbrev pub comparable_int : Comparable ℤ
comparable_int = record { equal = int_beq; equal_iff = int_beq_iff }
