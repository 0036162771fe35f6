-- ===== src/Docgen/Returns/Examples.antt =====
-- Error codes of a small handler (internal/docgen/parser.go).
use aqi.Prelude.{ℕ, false, ◌||◌, [], ◌∷◌, ◌≡◌, refl, contains, comparable_nat, HasNoRepeats}
use aqi.Prelude.Texts.{Text, codes}
use aqi.Docgen.Doc.{ReturnType}
use aqi.Docgen.Syntax.{
  Node, ident, call, selector, string_lit, int_lit, other, nothing, also, visit, never, method_call,
  is_ident,
}
use aqi.Docgen.Middlewares.{extract_string_literal}
use aqi.Docgen.Returns.{
  extract_returns, return_step, send_code, note_code, extract_int_value, extract_string_value,
}
use aqi.Docgen.Returns.Codes.{extract_returns_codes, codes_of, listed, max, is_sent, longest}

abbrev not_printed : Node → Text
not_printed n = []

-- `a.SendCode(code, msg)`
abbrev send_code_call : Text → Text → Node
send_code_call code msg =
    call (selector (ident (codes "a")) (codes "SendCode"))
      (also (int_lit code) (also (string_lit msg) nothing))

abbrev handler : Node
handler = other (
    also (send_code_call (codes "21") (codes "\"no user\"")) (
      also (send_code_call (codes "22") (codes "\"\""))
        (also (send_code_call (codes "21") (codes "\"no such user\"")) nothing)))

abbrev no_returns : ReturnType
no_returns = record { success_type = []; error_codes = []; has_data = false }

longer_stays :
    (extract_returns not_printed handler no_returns).error_codes
    ≡ record { code = 21; message = codes "no such user" }
      ∷ record { code = 22; message = codes "错误" }
      ∷ []
unfolding extract_returns visit return_step method_call is_ident send_code note_code
    extract_int_value extract_string_value extract_string_literal
longer_stays = refl

extract_returns_codes_example :
    let errors = (extract_returns not_printed handler no_returns).error_codes in
    HasNoRepeats (codes_of errors)
    × ((c : ℕ)
        → (contains c (codes_of errors)
            ≡ (is_sent c (visit never handler) || contains c (codes_of no_returns.error_codes)))
          × (listed c errors
              ≡ max (longest c (visit never handler)) (listed c no_returns.error_codes)))
extract_returns_codes_example = extract_returns_codes not_printed handler no_returns tt
