-- ===== src/Docgen/Params/Examples.antt =====
-- Parameters of a small handler (internal/docgen/parser.go).
use aqi.Prelude.{true, [], ◌∷◌, ◌++◌, some, ◌≡◌, refl, contains, comparable_nat}
use aqi.Prelude.Texts.{Text, codes, comparable_text}
use aqi.Docgen.Syntax.{
  Node, ident, call, selector, string_lit, address, literal, struct_type, field, assign, other,
  nothing, also, visit, never, method_call, is_ident, ident_name,
}
use aqi.Docgen.Tags.{
  extract_json_tag, json_part, extract_gorm_tag, scan_quoted, should_skip_gorm_field, has_omitempty,
  extract_comment,
}
use aqi.Docgen.Middlewares.{extract_string_literal}
use aqi.Docgen.Returns.{get_type_string}
use aqi.Docgen.Fields.{is_star, is_optional, describe_field, extract_fields, param_names}
use aqi.Docgen.Packages.{GoFile, FileSystem}
use aqi.Docgen.Params.{extract_params, param_step, bind_params}
use aqi.Docgen.Params.Variables.{find_var_type, declares, defined_type, type_of_value}
use aqi.Docgen.Params.Types.{extract_struct_fields, extract_struct_fields_here}
use aqi.Docgen.Params.Appends.{IsExtended}
use aqi.Docgen.Params.Listed.{extract_params-IsExtended, extract_params_lists}

abbrev not_printed : Node → Text
not_printed n = []

abbrev no_files : FileSystem
no_files dir = []

abbrev file : GoFile
file = record { package_name = codes "user"; imports = []; tree = other nothing }

-- `a.method(arg)`
abbrev context_call : Text → Node → Node
context_call method arg = call (selector (ident (codes "a")) method) (also arg nothing)

-- `a.GetInt("id")`
abbrev get_id_call : Node
get_id_call = context_call (codes "GetInt") (string_lit (codes "\"id\""))

-- `req := struct { Id int `json:"id"` }{}`
abbrev request : Node
request = assign true (also (ident (codes "req")) nothing) (
    also
      (literal
        (also
          (struct_type (
            also
              (field (codes "Id" ∷ []) (ident (codes "int")) (some (codes "`json:\"id\"`")) [] [])
              nothing))
          nothing)
        nothing)
      nothing)

abbrev binding : Node
binding = context_call (codes "BindingJson") (address (ident (codes "req")))

abbrev body : Node
body = other (also request (also get_id_call nothing))

extract_params-IsExtended_example :
    IsExtended [] (extract_params not_printed no_files file [] body [])
extract_params-IsExtended_example = extract_params-IsExtended not_printed no_files file [] body []

extract_params_lists_example :
    contains (codes "id") (param_names (extract_params not_printed no_files file [] body [])) ≡ true
unfolding visit extract_string_literal
extract_params_lists_example =
    extract_params_lists not_printed no_files file [] body [] (body ∷ visit never request)
      (visit never (selector (ident (codes "a")) (codes "GetInt"))
        ++ string_lit (codes "\"id\"") ∷ [])
      (codes "a") (codes "GetInt") (string_lit (codes "\"id\"")) nothing refl refl refl

-- A request that is bound twice has its fields listed twice.
bound_twice :
    param_names (
      extract_params not_printed no_files file []
        (other (also request (also binding (also binding nothing))))
        [])
    ≡ codes "id" ∷ codes "id" ∷ []
unfolding extract_params visit param_step method_call is_ident ident_name bind_params find_var_type
    declares defined_type type_of_value extract_struct_fields extract_struct_fields_here
    extract_fields describe_field extract_json_tag json_part extract_gorm_tag scan_quoted
    should_skip_gorm_field has_omitempty extract_comment is_optional is_star get_type_string
bound_twice = refl
