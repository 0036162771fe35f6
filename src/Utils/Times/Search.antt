-- ===== src/Utils/Times/Search.antt =====
-- `sort.Search`, as utils/t.go uses it, finds the first index that passes the test.
use Prim.Native.Nat.{◌/◌}
use aqi.Prelude.{
  ℕ, zero, suc, ◌+◌, ◌-◌, ◌≤◌, Bool, true, false, ◌≡◌, if◌then◌else◌, Bool-cases, inl, inr, ltb,
  arith,
}
use aqi.Utils.Times.{search}

module _ (f : ℕ → Bool) (n : ℕ) where
  -- No index that passes lies in front of one that does not.
  abbrev pub IsMonotone : Type 0
  IsMonotone = (i j : ℕ) → i ≤ j → suc j ≤ n → f i ≡ true → f j ≡ true

  -- What is known of an index: nothing in front of it passes.
  abbrev pub FailsBefore : ℕ → Type 0
  FailsBefore i = (k : ℕ) → suc k ≤ i → f k ≡ false

  abbrev pub PassesAt : ℕ → Type 0
  PassesAt j = suc j ≤ n → f j ≡ true

  pub search-PassesAt :
      (fuel i j : ℕ)
      → IsMonotone
      → i ≤ j
      → j ≤ n
      → suc (j - i) ≤ fuel
      → FailsBefore i
      → PassesAt j
      → FailsBefore (search fuel f i j) × PassesAt (search fuel f i j) × (search fuel f i j ≤ j)
  unfolding search
  search-PassesAt zero i j mono order room enough fails passes = absurd (omega (arith, enough))
  search-PassesAt (suc fuel) i j mono order room enough fails passes = elim (Bool-cases (ltb i j)) [
    | inr done ↦
        let same : i ≡ j = ground (arith, done, order) in
        rw (done, if◌then◌else◌) (fails, rw same passes, order)
    | inl open_ ↦ elim (Bool-cases (f ((i + j) / 2))) [
      | inl t ↦
          let apart : suc i ≤ j = ground (arith, open_) in
          let rest =
            search-PassesAt fuel i ((i + j) / 2) mono (omega (arith, apart))
              (omega (arith, apart, room)) (omega (arith, apart, enough)) fails (λ below. t) in
          rw (open_, t, if◌then◌else◌) (rest.0, rest.1, omega (arith, rest.2, apart))
      | inr g ↦
          let apart : suc i ≤ j = ground (arith, open_) in
          let still : FailsBefore (suc ((i + j) / 2)) = (λ k below. elim (Bool-cases (f k)) [
            | inr no_ ↦ no_
            | inl yes_ ↦
                let up : f ((i + j) / 2) ≡ true =
                  mono k ((i + j) / 2) (omega (arith, below)) (omega (arith, apart, room)) yes_ in
                absurd (ground (arith, up, g))
          ]) in
          let rest =
            search-PassesAt fuel (suc ((i + j) / 2)) j mono (omega (arith, apart)) room
              (omega (arith, apart, enough)) still passes in
          rw (open_, g, if◌then◌else◌) rest
    ]
  ]
