-- ===== src/Utils/Uids/Sequence.antt =====
-- Sequence numbers of calls that do not overlap (utils/uidgen/simple_uid.go).
use aqi.Prelude.{
  ℕ, suc, ◌+◌, ◌≤◌, true, List, [], ◌∷◌, ◌≡◌, refl, ◌==◌, ==_iff, comparable_nat, All, length,
  if◌then◌else◌, Bool-cases, ◌⊎◌, inl, inr, ltb, arith,
}
use aqi.Utils.Uids.{Clock, base_of, add_one, gen_seq, gen_all}

-- A time of the day.
abbrev pub IsTime : Clock → Type 0
IsTime c = (suc c.second ≤ 86400) × (suc c.tick ≤ 10000)

abbrev pub IsAscending : ℕ → List ℕ → Type 0
IsAscending n [] = Unit
IsAscending n (x ∷ xs) = (suc n ≤ x) × IsAscending x xs

add_one-small :
    (counter : ℕ) → suc (suc counter) ≤ 18446744073709551616 → add_one counter ≡ suc counter
add_one-small counter h = omega (arith, h)

base_of-IsTime : (c : Clock) → IsTime c → suc (base_of c) ≤ 8640000000
unfolding base_of
base_of-IsTime c h =
    let second : suc c.second ≤ 86400 = h.0 in
    let tick : suc c.tick ≤ 10000 = h.1 in omega (arith, second, tick)

-- Where the counter has room, a call gives the number behind the counter or the one of the clock,
-- whichever is larger, and leaves it in the counter.
gen_seq-cases :
    (counter : ℕ) (c : Clock)
    → suc (suc counter) ≤ 18446744073709551616
    → (gen_seq counter c ≡ (suc counter, suc counter))
      ⊎ ((suc (suc counter) ≤ base_of c) × (gen_seq counter c ≡ (base_of c, base_of c)))
unfolding gen_seq
gen_seq-cases counter c h =
    let small = add_one-small counter h in
    elim (Bool-cases (ltb (suc counter) (base_of c))) [
      | inl t ↦
          let same : (suc counter == suc counter) ≡ true =
            (==_iff (suc counter) (suc counter)).1 refl in
          inr (ground (arith, t), rw (small, t, same, if◌then◌else◌) refl)
      | inr f ↦ inl (rw (small, f, if◌then◌else◌) refl)
    ]

-- Calls that do not overlap, at times of any days, also of days that go backwards: while the counter
-- does not wrap round, each call gives a larger number than the one before it.
pub gen_all-IsAscending :
    (clocks : List Clock) (counter : ℕ)
    → All IsTime clocks
    → suc (counter + length clocks) ≤ 18446744073709551616
    → suc (8640000000 + length clocks) ≤ 18446744073709551616
    → IsAscending counter (gen_all counter clocks)
unfolding gen_all
gen_all-IsAscending [] counter times room far = tt
gen_all-IsAscending (c ∷ clocks) counter times room far =
    elim (gen_seq-cases counter c (omega (arith, room))) [
      | inl e ↦ rw e (
        omega (arith),
        gen_all-IsAscending clocks (suc counter) times.1 (omega (arith, room)) (omega (arith, far)),
      )
      | inr (above, e) ↦
          let base = base_of-IsTime c times.0 in
          rw e (
            omega (arith, above),
            gen_all-IsAscending clocks (base_of c) times.1 (omega (arith, far, base))
                (omega (arith, far)),
          )
    ]
