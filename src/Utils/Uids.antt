-- ===== src/Utils/Uids.antt =====
-- `GenSid` of utils/uidgen/simple_uid.go: the sequence numbers that a shared counter gives, also where
-- calls overlap. A number of 64 bits keeps its wrap-around.
pub mod Sequence
pub mod Overlap
mod Examples
use aqi.Prelude.{
  ℕ, suc, ◌+◌, ◌*◌, ◌-◌, ◌%◌, Bool, true, false, List, [], ◌∷◌, ◌++◌, Option, none, some, ◌==◌,
  comparable_nat, get_elem?, set, if◌then◌else◌, ltb,
}
use aqi.Prelude.Texts.{Text, padded}

-- What the clock shows: the year, the day of the year, the second of the day, the 0.1 milliseconds
pub record Clock : Type 0 where
  pub year : ℕ
  pub year_day : ℕ
  pub second : ℕ
  pub tick : ℕ

abbrev pub year_part : Clock → ℕ
year_part c = 100 + (c.year - 2025)

abbrev pub day_part : Clock → ℕ
day_part c = c.year_day + 521

unfoldable pub base_of : Clock → ℕ
base_of c = c.second * 100000 + c.tick

-- `atomic.AddUint64(&counter, 1)`
abbrev pub add_one : ℕ → ℕ
add_one counter = (counter + 1) % 18446744073709551616

-- `atomic.CompareAndSwapUint64(&counter, seq, base)`
abbrev pub swap : ℕ → ℕ → ℕ → ℕ
swap counter seq base = if counter == seq then base else counter

-- A call: before `AddUint64`, behind it, and at its end.
pub data Call : Type 0 where
  waiting : Clock → Call
  counted : Clock → ℕ → Call
  returned : Clock → ℕ → Call

-- The next atomic operation of a call, and what it leaves in the counter.
unfoldable pub advance : ℕ → Call → ℕ × Call
advance counter (waiting c) = (add_one counter, counted c (add_one counter))
advance counter (counted c seq) =
    if ltb seq (base_of c)
    then (swap counter seq (base_of c), returned c (base_of c))
    else (counter, returned c seq)
advance counter (returned c seq) = (counter, returned c seq)

-- A call that no other call interrupts: the counter and the sequence number.
unfoldable pub gen_seq : ℕ → Clock → ℕ × ℕ
gen_seq counter c =
    let seq = add_one counter in
    if ltb seq (base_of c) then (swap seq seq (base_of c), base_of c) else (seq, seq)

-- Calls one after the other.
unfoldable pub gen_all : ℕ → List Clock → List ℕ
gen_all counter [] = []
gen_all counter (c ∷ clocks) = let (next, seq) = gen_seq counter c in seq ∷ gen_all next clocks

-- Overlapping calls: each number of the schedule lets that call take its next operation.
unfoldable pub interleave : ℕ → List Call → List ℕ → ℕ × List Call
interleave counter calls [] = (counter, calls)
interleave counter calls (i ∷ schedule) = elim (get_elem? calls i) [
  | none ↦ interleave counter calls schedule
  | some call ↦
      (let (next, done) = advance counter call in interleave next (set calls i done) schedule)
]

-- `fmt.Sprintf("%03d%03d%010d", yearPart, dayPart, seq)`
unfoldable pub gen_sid : Clock → ℕ → Text
gen_sid c seq = padded 3 (year_part c) ++ (padded 3 (day_part c) ++ padded 10 seq)
