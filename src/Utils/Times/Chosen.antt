-- ===== src/Utils/Times/Chosen.antt =====
-- Which format `CustomRelTime` of utils/t.go uses.
use aqi.Prelude.{
  ℕ, zero, suc, ◌≤◌, true, false, List, [], ◌∷◌, Option, none, some, ◌≡◌, refl, ap, length,
  if◌then◌else◌, ltb, arith,
}
use aqi.Prelude.Texts.{Text}
use aqi.Utils.Times.{
  Magnitude, search, d_at, above, magnitude_at, write_magnitude, sub_time, custom_rel_time,
}
use aqi.Utils.Times.Search.{IsMonotone, FailsBefore, PassesAt, search-PassesAt}

-- The durations do not decrease.
abbrev pub IsAscending : List Magnitude → Type 0
IsAscending [] = Unit
IsAscending (m ∷ []) = Unit
IsAscending (m ∷ k ∷ ms) = (m.d ≤ k.d) × IsAscending (k ∷ ms)

-- The first magnitude whose duration is above the difference, or the last one.
abbrev pub first_above : ℕ → List Magnitude → Option Magnitude
first_above diff [] = none
first_above diff (m ∷ []) = some m
first_above diff (m ∷ k ∷ ms) =
    let rest = first_above diff (k ∷ ms) in if ltb diff m.d then some m else rest

-- An index in front of which nothing is above the difference, and at which something is or which is
-- the end, leads to that magnitude.
magnitude_at-first :
    (diff n : ℕ) (ms : List Magnitude)
    → FailsBefore (above ms diff) (length ms) n
    → PassesAt (above ms diff) (length ms) n
    → n ≤ length ms
    → magnitude_at ms n ≡ first_above diff ms
magnitude_at-first diff n [] fails passes h = refl
magnitude_at-first diff n (m ∷ []) fails passes h = refl
magnitude_at-first diff zero (m ∷ k ∷ ms) fails passes h =
    let here : ltb diff m.d ≡ true = passes (omega (arith)) in rw (here, if◌then◌else◌) refl
magnitude_at-first diff (suc n) (m ∷ k ∷ ms) fails passes h =
    let here : ltb diff m.d ≡ false = fails zero (omega (arith)) in
    rw (here, if◌then◌else◌)
      (magnitude_at-first diff n (k ∷ ms) (λ i b. fails (suc i) (omega (arith, b)))
        (λ b. passes (omega (arith, b))) (omega (arith, h)))

above-first :
    (diff j : ℕ) (m : Magnitude) (ms : List Magnitude)
    → IsAscending (m ∷ ms)
    → suc j ≤ length (m ∷ ms)
    → m.d ≤ d_at (m ∷ ms) j
above-first diff zero m ms asc h = omega (arith)
above-first diff (suc j) m [] asc h = absurd (omega (arith, h))
above-first diff (suc j) m (k ∷ ms) asc h =
    let step : m.d ≤ k.d = asc.0 in
    omega (arith, step, above-first diff j k ms asc.1 (omega (arith, h)))

above-IsMonotone :
    (diff : ℕ) (ms : List Magnitude) → IsAscending ms → IsMonotone (above ms diff) (length ms)
above-IsMonotone diff [] asc i j order room t = absurd (omega (arith, room))
above-IsMonotone diff (m ∷ ms) asc zero j order room t =
    ground (arith, t, above-first diff j m ms asc room)
above-IsMonotone diff (m ∷ ms) asc (suc i) zero order room t = absurd (omega (arith, order))
above-IsMonotone diff (m ∷ []) asc (suc i) (suc j) order room t = absurd (omega (arith, room))
above-IsMonotone diff (m ∷ k ∷ ms) asc (suc i) (suc j) order room t =
    above-IsMonotone diff (k ∷ ms) asc.1 i j (omega (arith, order)) (omega (arith, room)) t

-- For durations that do not decrease, the search by halving ends and finds what a walk from the front
-- finds: the text is that of the first magnitude above the difference of the two times, or of the
-- last magnitude, with the label of the earlier time.
pub custom_rel_time-first_above :
    (a b : ℕ) (a_label b_label : Text) (ms : List Magnitude)
    → IsAscending ms
    → custom_rel_time a b a_label b_label ms ≡ (
        let diff = if ltb b a then sub_time a b else sub_time b a in
        write_magnitude (if ltb b a then b_label else a_label) diff (first_above diff ms))
unfolding custom_rel_time
custom_rel_time-first_above a b a_label b_label ms asc =
    let diff : ℕ = if ltb b a then sub_time a b else sub_time b a in
    let found =
      search-PassesAt (above ms diff) (length ms) (suc (length ms)) 0 (length ms)
        (above-IsMonotone diff ms asc) (omega (arith)) (omega (arith)) (omega (arith))
        (λ k h. absurd (omega (arith, h))) (λ h. absurd (omega (arith, h))) in
    ap (write_magnitude (if ltb b a then b_label else a_label) diff) (
      magnitude_at-first diff (search (suc (length ms)) (above ms diff) 0 (length ms)) ms found.0
        found.1 found.2)
