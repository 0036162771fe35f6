-- ===== src/Ws/Values.antt =====
-- Values of any type: ws/context_value.go, and the map of ws/data_h.go. A value of a type that no getter asks for, or a float, is `other`.
mod Examples
use aqi.Prelude.{
  comparable_string, ℕ, suc, ◌-◌, ◌+◌, ◌==◌, comparable_nat, Bool, false, true, String, List, [],
  ◌∷◌, Option, none, some, if◌then◌else◌,
}
use aqi.Prelude.Int.{ℤ, pos, negsuc}
use aqi.Prelude.Dict.{Dict, get, put}

-- `any`, by its dynamic type; the fields of a slice or map are values of it again.
mutual
  pub data Any : Type 0 where
    nil : Any
    string_any : String → Any
    boolean_any : Bool → Any
    int_any : ℤ → Any
    int8_any : ℤ → Any
    int16_any : ℤ → Any
    int32_any : ℤ → Any
    int64_any : ℤ → Any
    uint_any : ℕ → Any
    uint8_any : ℕ → Any
    uint16_any : ℕ → Any
    uint32_any : ℕ → Any
    uint64_any : ℕ → Any
    time_any : ℤ → Any
    duration_any : ℤ → Any
    slice_any : Anys → Any
    strings_any : List String → Any
    ints_any : List ℤ → Any
    string_map_any : Dict String String → Any
    other_any : ℕ → Any

  pub data Anys : Type 0 where
    no_more : Anys
    more : Any → Anys → Anys

-- The zero time of Go, in seconds before 1970
abbrev pub zero_time : ℤ
zero_time = negsuc 62135596799

-- `IsNil`
unfoldable pub is_nil : Any → Bool
is_nil nil = true
is_nil v = false

-- The getters of `Value`: the value where it has the type, else the zero value of the type.
unfoldable pub as_string : Any → String
as_string (string_any x) = x
as_string v = ""

unfoldable pub as_bool : Any → Bool
as_bool (boolean_any x) = x
as_bool v = false

unfoldable pub as_int : Any → ℤ
as_int (int_any x) = x
as_int v = pos 0

unfoldable pub as_int8 : Any → ℤ
as_int8 (int8_any x) = x
as_int8 v = pos 0

unfoldable pub as_int16 : Any → ℤ
as_int16 (int16_any x) = x
as_int16 v = pos 0

unfoldable pub as_int32 : Any → ℤ
as_int32 (int32_any x) = x
as_int32 v = pos 0

unfoldable pub as_int64 : Any → ℤ
as_int64 (int64_any x) = x
as_int64 v = pos 0

unfoldable pub as_uint : Any → ℕ
as_uint (uint_any x) = x
as_uint v = 0

unfoldable pub as_uint8 : Any → ℕ
as_uint8 (uint8_any x) = x
as_uint8 v = 0

unfoldable pub as_uint16 : Any → ℕ
as_uint16 (uint16_any x) = x
as_uint16 v = 0

unfoldable pub as_uint32 : Any → ℕ
as_uint32 (uint32_any x) = x
as_uint32 v = 0

unfoldable pub as_uint64 : Any → ℕ
as_uint64 (uint64_any x) = x
as_uint64 v = 0

unfoldable pub as_time : Any → ℤ
as_time (time_any x) = x
as_time v = zero_time

unfoldable pub as_duration : Any → ℤ
as_duration (duration_any x) = x
as_duration v = pos 0

-- A nil slice or map has no elements.
unfoldable pub as_slice : Any → Anys
as_slice (slice_any xs) = xs
as_slice v = no_more

unfoldable pub as_slice_string : Any → List String
as_slice_string (strings_any xs) = xs
as_slice_string v = []

unfoldable pub as_slice_int : Any → List ℤ
as_slice_int (ints_any xs) = xs
as_slice_int v = []

unfoldable pub as_string_map : Any → Dict String String
as_string_map (string_map_any d) = d
as_string_map v = []

-- `H`; a nil map is none.
abbrev pub HMap : Type 0
HMap = Option (Dict String Any)

-- `Get` and `Set`
unfoldable pub h_get : HMap → String → Any × Bool
h_get none key = (nil, false)
h_get (some d) key = elim (get d key) [ none ↦ (nil, false) | some v ↦ (v, true) ]

unfoldable pub h_set : HMap → String → Any → HMap
h_set none key v = some (put [] key v)
h_set (some d) key v = some (put d key v)
