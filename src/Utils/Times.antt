-- ===== src/Utils/Times.antt =====
-- utils/t.go: relative times. A time is in nanoseconds from a fixed moment; `Sub` stops at the largest
-- duration.
pub mod Search
pub mod Chosen
mod Examples
use Prim.Native.Nat.{◌/◌}
use aqi.Prelude.{
  ℕ, zero, suc, ◌+◌, ◌*◌, ◌-◌, Bool, true, false, List, [], ◌∷◌, ◌++◌, Option, none, some, length,
  if◌then◌else◌, ltb, leb,
}
use aqi.Prelude.Texts.{Text, codes, decimal}

-- A part of a format: text, `%s` or `%d`.
pub data Piece : Type 0 where
  words_of : Text → Piece
  label : Piece
  quantity : Piece

-- `RelTimeMagnitude`
pub record Magnitude : Type 0 where
  pub d : ℕ
  pub format : List Piece
  pub div_by : ℕ

abbrev pub second : ℕ
second = 1000000000

abbrev pub minute : ℕ
minute = 60 * second

abbrev pub hour : ℕ
hour = 60 * minute

abbrev pub day : ℕ
day = 24 * hour

abbrev pub week : ℕ
week = 7 * day

abbrev pub month : ℕ
month = 30 * day

abbrev pub year : ℕ
year = 12 * month

abbrev pub max_duration : ℕ
max_duration = 9223372036854775807

abbrev pub magnitude : ℕ → List Piece → ℕ → Magnitude
magnitude d format div_by = record { d = d; format = format; div_by = div_by }

abbrev pub fixed : Text → List Piece
fixed text = words_of text ∷ label ∷ []

abbrev pub counted_in : Text → List Piece
counted_in text = quantity ∷ words_of text ∷ label ∷ []

-- `defaultMagnitudes`
abbrev pub default_magnitudes : List Magnitude
default_magnitudes =
    magnitude second (words_of (codes "刚刚") ∷ []) second
    ∷ magnitude (2 * second) (fixed (codes "1 秒 ")) 1
    ∷ magnitude minute (counted_in (codes " 秒 ")) second
    ∷ magnitude (2 * minute) (fixed (codes "1 分钟 ")) 1
    ∷ magnitude hour (counted_in (codes " 分钟 ")) minute
    ∷ magnitude (2 * hour) (fixed (codes "1 小时 ")) 1
    ∷ magnitude day (counted_in (codes " 小时 ")) hour
    ∷ magnitude (2 * day) (fixed (codes "1 天 ")) 1
    ∷ magnitude week (counted_in (codes " 天 ")) day
    ∷ magnitude (2 * week) (fixed (codes "1 周 ")) 1
    ∷ magnitude month (counted_in (codes " 周 ")) week
    ∷ magnitude (2 * month) (fixed (codes "1 月 ")) 1
    ∷ magnitude year (counted_in (codes " 月 ")) month
    ∷ magnitude (18 * month) (fixed (codes "1 年 ")) 1
    ∷ magnitude (2 * year) (fixed (codes "2 年 ")) 1
    ∷ magnitude (37 * year) (counted_in (codes " years ")) year
    ∷ magnitude max_duration (label ∷ []) 1
    ∷ []

-- `sort.Search`: halving, on fuel; a number of rounds above `j - i` is enough.
unfoldable pub search : ℕ → (ℕ → Bool) → ℕ → ℕ → ℕ
search zero f i j = i
search (suc fuel) f i j =
    let middle = (i + j) / 2 in
    let left = search fuel f i middle in
    let right = search fuel f (suc middle) j in
    if ltb i j then (if f middle then left else right) else i

abbrev pub d_at : List Magnitude → ℕ → ℕ
d_at [] i = 0
d_at (m ∷ ms) zero = m.d
d_at (m ∷ ms) (suc i) = d_at ms i

abbrev pub above : List Magnitude → ℕ → ℕ → Bool
above ms diff i = ltb diff (d_at ms i)

-- `magnitudes[n]`, or the last one; none where there are no magnitudes, which panics.
abbrev pub magnitude_at : List Magnitude → ℕ → Option Magnitude
magnitude_at [] n = none
magnitude_at (m ∷ []) n = some m
magnitude_at (m ∷ k ∷ ms) zero = some m
magnitude_at (m ∷ k ∷ ms) (suc n) = magnitude_at (k ∷ ms) n

abbrev pub written : Text → ℕ → List Piece → Text
written lbl n [] = []
written lbl n (words_of t ∷ pieces) = t ++ written lbl n pieces
written lbl n (label ∷ pieces) = lbl ++ written lbl n pieces
written lbl n (quantity ∷ pieces) = decimal n ++ written lbl n pieces

abbrev pub write_magnitude : Text → ℕ → Option Magnitude → Option Text
write_magnitude lbl diff none = none
write_magnitude lbl diff (some m) = some (written lbl (diff / m.div_by) m.format)

-- `b.Sub(a)` for a time that is not earlier
abbrev pub sub_time : ℕ → ℕ → ℕ
sub_time b a = if leb (b - a) max_duration then b - a else max_duration

-- `CustomRelTime`
unfoldable pub custom_rel_time : ℕ → ℕ → Text → Text → List Magnitude → Option Text
custom_rel_time a b a_label b_label magnitudes =
    let lbl = if ltb b a then b_label else a_label in
    let diff = if ltb b a then sub_time a b else sub_time b a in
    let n = search (suc (length magnitudes)) (above magnitudes diff) 0 (length magnitudes) in
    write_magnitude lbl diff (magnitude_at magnitudes n)

-- `RelTime`
abbrev pub rel_time : ℕ → ℕ → Text → Text → Option Text
rel_time a b a_label b_label = custom_rel_time a b a_label b_label default_magnitudes
