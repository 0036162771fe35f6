-- ===== src/Docgen/Returns.antt =====
-- What a handler returns: `extractReturnsFromFuncBody`, `extractIntValue`, `extractStringValue` and
-- `getTypeString` of internal/docgen/parser.go. `printed` is what package fmt prints of a node that is
-- no identifier.
pub mod Codes
mod Examples
use mathlib.Core.List.{foldl}
use aqi.Prelude.{
  ℕ, ◌+◌, ◌*◌, ◌-◌, Bool, true, false, not, ◌&&◌, List, [], ◌∷◌, ◌++◌, Option, none, some, ◌==◌,
  comparable_nat, if◌then◌else◌, ltb, leb,
}
use aqi.Prelude.Texts.{Text, codes, comparable_text, is_empty}
use aqi.Docgen.Doc.{ErrorCode, ReturnType}
use aqi.Docgen.Syntax.{
  Node, ident, int_lit, selector, array_type, map_type, star, Nodes, nothing, also, visit, never,
  method_call, is_ident,
}
use aqi.Docgen.Middlewares.{extract_string_literal}

-- `len(t)`: the bytes of the UTF-8 form
abbrev pub bytes : Text → ℕ
bytes [] = 0
bytes (c ∷ t) =
    (if ltb c 128 then 1 else if ltb c 2048 then 2 else if ltb c 65536 then 3 else 4) + bytes t

-- `fmt.Sscanf(t, "%d", &val)` on a literal: the digits that it starts with, in base ten, where the
-- number is an int.
abbrev pub read_digits : ℕ → Text → ℕ
read_digits n [] = n
read_digits n (c ∷ t) =
    let rest = read_digits (n * 10 + (c - b'0')) t in if leb b'0' c && leb c b'9' then rest else n

-- `extractIntLiteral` and `extractIntValue`: 0 for anything else
unfoldable pub extract_int_value : Node → ℕ
extract_int_value (int_lit t) =
    let n = read_digits 0 t in if ltb n 9223372036854775808 then n else 0
extract_int_value n = 0

-- `extractStringValue`
abbrev pub string_of_call : Option (Node × (Text × Nodes)) → Node → Text
string_of_call none (ident x) = x
string_of_call none n = []
string_of_call (some (x, (name, args))) n = if name == codes "Error" then codes "错误信息" else []

unfoldable pub extract_string_value : Node → Text
extract_string_value n =
    let text = extract_string_literal n in
    if not (is_empty text) then text else string_of_call (method_call n) n

-- The loop over the error codes and the append behind it: the longer message stays.
unfoldable pub note_code : ℕ → Text → List ErrorCode → List ErrorCode
note_code code msg [] = record { code = code; message = msg } ∷ []
note_code code msg (e ∷ codes) =
    let rest = note_code code msg codes in
    if e.code == code
    then (if ltb (bytes e.message) (bytes msg)
        then record { code = e.code; message = msg } ∷ codes
        else e ∷ codes)
    else e ∷ rest

-- The message of a `SendCode`
abbrev pub message_of : Node → Text
message_of n = let text = extract_string_value n in if is_empty text then codes "错误" else text

-- `SendCode`
unfoldable pub send_code : Nodes → ReturnType → ReturnType
send_code (also code (also msg args)) r =
    if ltb 0 (extract_int_value code)
    then record {
      success_type = r.success_type;
      error_codes = note_code (extract_int_value code) (message_of msg) r.error_codes;
      has_data = false;
    }
    else record { success_type = r.success_type; error_codes = r.error_codes; has_data = false }
send_code args r = record {
  success_type = r.success_type;
  error_codes = r.error_codes;
  has_data = false;
}

module _ (printed : Node → Text) where
  -- `getTypeString`
  unfoldable pub get_type_string : Node → Text
  get_type_string (ident x) = x
  get_type_string (selector (ident x) name) = x ++ (codes "." ++ name)
  get_type_string (selector x name) = printed x ++ (codes "." ++ name)
  get_type_string (array_type t) = codes "[]" ++ get_type_string t
  get_type_string (map_type k v) =
      codes "map[" ++ (get_type_string k ++ (codes "]" ++ get_type_string v))
  get_type_string (star x) = codes "*" ++ get_type_string x
  get_type_string n = codes "any"

  -- `Send`
  unfoldable pub send : Nodes → ReturnType → ReturnType
  send nothing r = record {
    success_type = r.success_type;
    error_codes = r.error_codes;
    has_data = true;
  }
  send (also value args) r = record {
    success_type = get_type_string value;
    error_codes = r.error_codes;
    has_data = true;
  }

  abbrev pub return_of_call : Node → Text → Nodes → ReturnType → ReturnType
  return_of_call x name args r =
      if not (is_ident x)
      then r
      else if name == codes "Send"
      then send args r
      else if name == codes "SendOk"
      then record { success_type = r.success_type; error_codes = r.error_codes; has_data = false }
      else if name == codes "SendCode"
      then send_code args r
      else r

  abbrev pub return_of : ReturnType → Option (Node × (Text × Nodes)) → ReturnType
  return_of r none = r
  return_of r (some (x, (name, args))) = return_of_call x name args r

  -- One node of the walk.
  unfoldable pub return_step : ReturnType → Node → ReturnType
  return_step r n = return_of r (method_call n)

  -- `extractReturnsFromFuncBody`
  unfoldable pub extract_returns : Node → ReturnType → ReturnType
  extract_returns body r = foldl return_step r (visit never body)
