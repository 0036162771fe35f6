-- ===== src/Mcp/Schema.antt =====
-- Schemas of mcp/schema.go, and `validateArguments` of mcp/server.go. A JSON value is a tree; a
-- decoded Go map is a dictionary, whose order is the order in which a loop ranges over it.
pub mod Arguments
use aqi.Prelude.{
  ℕ, ◌+◌, ◌-◌, ◌^◌, Bool, true, false, not, ◌&&◌, ◌||◌, String, List, [], ◌∷◌, Option, none, some,
  ltb, leb, comparable_string, ◌==◌, if◌then◌else◌,
}
use aqi.Prelude.Int.{ℤ, pos, negsuc}
use aqi.Prelude.Dict.{Dict, get, put}

-- A number literal: an integer, or another one, for which is noted whether float64 has room for it.
pub data Number : Type 0 where
  whole : ℤ → Number
  fraction : Bool → Number

-- With a text stands the number literal that the text spells, if it spells one.
mutual
  pub data Json : Type 0 where
    null : Json
    boolean : Bool → Json
    number : Number → Json
    text : String → Option Number → Json
    array : Items → Json
    object : Fields → Json

  pub data Items : Type 0 where
    end_items : Items
    item : Json → Items → Items

  pub data Fields : Type 0 where
    end_fields : Fields
    field : String → Json → Fields → Fields

mutual
  -- `Schema`: type, description, properties, required, items and additionalProperties
  pub data Schema : Type 0 where
    schema : String → String → Props → List String → Element → Option Bool → Schema

  pub data Props : Type 0 where
    end_props : Props
    prop : String → Schema → Props → Props

  pub data Element : Type 0 where
    no_element : Element
    element : Schema → Element

abbrev pub schema_type : Schema → String
schema_type (schema t d ps r i a) = t

abbrev pub properties : Schema → Props
properties (schema t d ps r i a) = ps

abbrev pub required : Schema → List String
required (schema t d ps r i a) = r

-- `EmptyObjectSchema`, `ObjectSchema`, `scalarSchema` and `ArraySchema`
abbrev pub empty_object_schema : Schema
empty_object_schema = schema "object" "" end_props [] no_element (some false)

abbrev pub object_schema : Props → List String → Schema
object_schema ps r = schema "object" "" ps r no_element none

abbrev pub scalar_schema : String → String → Schema
scalar_schema t d = schema t d end_props [] no_element none

abbrev pub array_schema : Schema → String → Schema
array_schema items d = schema "array" d end_props [] (element items) none

unfoldable pub normalize_schema : Schema → Schema
normalize_schema s = if schema_type s == "" then empty_object_schema else s

-- `validateInputSchema`: whether there is no error
unfoldable pub validate_input_schema : Schema → Bool
validate_input_schema s = schema_type (normalize_schema s) == "object"

-- `Int64` of `json.Number`: whether the value is in the range.
abbrev pub is_int64 : Number → Bool
is_int64 (whole (pos n)) = ltb n (2 ^ 63)
is_int64 (whole (negsuc n)) = ltb n (2 ^ 63)
is_int64 (fraction b) = false

-- `Float64`: from 2^1024 - 2^970 on an integer rounds to infinity.
abbrev pub is_float64 : Number → Bool
is_float64 (whole (pos n)) = ltb n (2 ^ 1024 - 2 ^ 970)
is_float64 (whole (negsuc n)) = ltb (n + 1) (2 ^ 1024 - 2 ^ 970)
is_float64 (fraction b) = b

-- Decoding into a `json.Number`, and a test on the number: a text that spells a number is taken,
-- and null leaves the empty text, which is no number.
abbrev pub numeric : (Number → Bool) → Json → Bool
numeric p (number n) = p n
numeric p (text s (some n)) = p n
numeric p v = false

-- Decoding into a string, a bool, a map and a slice; null is taken by each.
abbrev pub is_text : Json → Bool
is_text null = true
is_text (text s n) = true
is_text v = false

abbrev pub is_boolean : Json → Bool
is_boolean null = true
is_boolean (boolean b) = true
is_boolean v = false

abbrev pub is_object : Json → Bool
is_object null = true
is_object (object fs) = true
is_object v = false

abbrev pub is_array : Json → Bool
is_array null = true
is_array (array is) = true
is_array v = false

-- `validateArgumentType`: whether there is no error
unfoldable pub validate_argument_type : String → Json → Bool
validate_argument_type t v =
    if t == "string"
    then is_text v
    else if t == "number"
    then numeric is_float64 v
    else if t == "integer"
    then numeric is_int64 v
    else if t == "boolean"
    then is_boolean v
    else if t == "object"
    then is_object v
    else if t == "array"
    then is_array v
    else true

-- The errors of `validateArguments`.
pub data ArgumentError : Type 0 where
  invalid_arguments : ArgumentError
  missing : String → ArgumentError
  wrong_type : String → String → ArgumentError

-- Decoding an object into a map: of two fields with one name the later counts.
abbrev pub decode_fields : Fields → Dict String Json → Dict String Json
decode_fields end_fields d = d
decode_fields (field name v fs) d = decode_fields fs (put d name v)

unfoldable pub check_required : List String → Dict String Json → Option ArgumentError
check_required [] args = none
check_required (name ∷ names) args =
    let rest = check_required names args in
    elim (get args name) [ none ↦ some (missing name) | some v ↦ rest ]

unfoldable pub check_properties : Props → Dict String Json → Option ArgumentError
check_properties end_props args = none
check_properties (prop name s ps) args =
    let rest = check_properties ps args in
    elim (get args name) [
      | none ↦ rest
      | some v ↦
          if validate_argument_type (schema_type s) v
          then rest
          else some (wrong_type name (schema_type s))
    ]

unfoldable pub check_arguments : Schema → Dict String Json → Option ArgumentError
check_arguments s args = elim (check_required (required s) args) [
  | some e ↦ some e
  | none ↦ check_properties (properties s) args
]

-- `validateArguments`; `none` is success.
unfoldable pub validate_arguments : Schema → Json → Option ArgumentError
validate_arguments s (object fs) = check_arguments s (decode_fields fs [])
validate_arguments s v = some invalid_arguments
