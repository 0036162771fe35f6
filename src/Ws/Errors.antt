-- ===== src/Ws/Errors.antt =====
-- Error codes: `NewError` of ws/data_error.go, with the ranges of ws/data_appid.go. The package's
-- map of codes is passed along, and a panic is `none`. An `int` is not bounded here.
pub mod Codes
mod Examples
use aqi.Prelude.{
  ℕ, ◌+◌, ◌*◌, Bool, true, false, ◌&&◌, ◌||◌, String, List, [], ◌∷◌, Option, none, some, leb,
  if◌then◌else◌,
}
use aqi.Prelude.Int.{ℤ, pos, negsuc, comparable_int, int_beq}
use aqi.Prelude.Dict.{Dict, get, put}

-- `Error`, less the fields that `NewError` leaves empty.
pub record Error : Type 0 where
  pub code : ℤ
  pub msg : String

-- `sys`, `minAppid`, `maxAppid`, `minCode`, `maxCode` and `base`
abbrev pub sys : ℤ
sys = pos 0

abbrev pub min_appid : ℕ
min_appid = 200

abbrev pub max_appid : ℕ
max_appid = 999

abbrev pub min_code : ℕ
min_code = 0

abbrev pub max_code : ℕ
max_code = 999

abbrev pub base : ℕ
base = 1000

-- A number in a range of natural numbers; `none` for one outside.
abbrev pub in_range : ℕ → ℕ → ℤ → Option ℕ
in_range low high (pos n) = if leb low n && leb n high then some n else none
in_range low high (negsuc n) = none

-- The code that is registered.
unfoldable pub full_code : ℤ → ℤ → Option ℤ
full_code app code =
    if int_beq app sys then some code else elim (in_range min_appid max_appid app) [
      | none ↦ none
      | some a ↦ elim (in_range min_code max_code code) [
        | none ↦ none
        | some c ↦ some (pos (a * base + c))
      ]
    ]

-- `NewError`
unfoldable pub new_error : ℤ → ℤ → String → Dict ℤ String → Option (Error × Dict ℤ String)
new_error app code msg codes = elim (full_code app code) [
  | none ↦ none
  | some full ↦ elim (get codes full) [
    | some old ↦ none
    | none ↦ some (record { code = full; msg = msg }, put codes full msg)
  ]
]

-- Calls of `NewError` one after the other.
unfoldable pub new_errors :
    List (ℤ × (ℤ × String)) → Dict ℤ String → Option (List Error × Dict ℤ String)
new_errors [] codes = some ([], codes)
new_errors ((app, (code, msg)) ∷ calls) codes = elim (new_error app code msg codes) [
  | none ↦ none
  | some (e, codes') ↦ elim (new_errors calls codes') [
    | none ↦ none
    | some (es, last) ↦ some (e ∷ es, last)
  ]
]
