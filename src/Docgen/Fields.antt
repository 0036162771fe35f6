-- ===== src/Docgen/Fields.antt =====
-- The parameters that the fields of a struct stand for: `extractFieldsFromStruct`,
-- `extractFieldsFromStructWithPrefix` and `isOptional` of internal/docgen/parser.go.
use aqi.Prelude.{
  Bool, true, false, not, ◌||◌, List, [], ◌∷◌, ◌++◌, Option, none, some, ◌==◌, comparable_nat,
  contains, map, if◌then◌else◌,
}
use aqi.Prelude.Texts.{Text, codes, comparable_text, is_empty}
use aqi.Docgen.Doc.{ParamField}
use aqi.Docgen.Syntax.{Node, field, star, Nodes, nothing, also}
use aqi.Docgen.Tags.{extract_json_tag, should_skip_gorm_field, has_omitempty, extract_comment}
use aqi.Docgen.Returns.{get_type_string}

unfoldable pub is_star : Node → Bool
is_star (star x) = true
is_star n = false

-- `isOptional`
unfoldable pub is_optional : Node → Option Text → Bool
is_optional type tag = is_star type || has_omitempty tag

abbrev pub param_names : List ParamField → List Text
param_names = map (λ (p : ParamField). p.name)

-- The loop that looks for a parameter of the name, and the append where there is none.
unfoldable pub add_param : ParamField → List ParamField → List ParamField
add_param p params = if contains p.name (param_names params) then params else params ++ p ∷ []

abbrev pub or_else : Text → Text → Text
or_else t other = if is_empty t then other else t

module _ (printed : Node → Text) where
  -- What a loop round makes of a field: nothing for an embedded field, for the name `-`, and for a
  -- column that the database fills.
  unfoldable pub describe_field : Node → Option ParamField
  describe_field (field (name ∷ names) type tag doc comment) =
      let json = extract_json_tag tag in
      if json == codes "-"
      then none
      else if should_skip_gorm_field tag
      then none
      else some (record {
        name = or_else json name;
        type = get_type_string printed type;
        is_required = not (is_optional type tag);
        description = or_else (extract_comment comment) (extract_comment doc);
      })
  describe_field n = none

  abbrev pub append_described : Option ParamField → List ParamField → List ParamField
  append_described none params = params
  append_described (some p) params = params ++ p ∷ []

  -- `extractFieldsFromStruct`
  unfoldable pub extract_fields : Nodes → List ParamField → List ParamField
  extract_fields nothing params = params
  extract_fields (also f fields) params =
      extract_fields fields (append_described (describe_field f) params)

  abbrev pub with_prefix : Text → ParamField → ParamField
  with_prefix prefix p = record {
    name = prefix ++ (codes "." ++ p.name);
    type = p.type;
    is_required = p.is_required;
    description = p.description;
  }

  abbrev pub add_described : Text → Option ParamField → List ParamField → List ParamField
  add_described prefix none params = params
  add_described prefix (some p) params = add_param (with_prefix prefix p) params

  -- `extractFieldsFromStructWithPrefix`
  unfoldable pub extract_fields_with_prefix : Text → Nodes → List ParamField → List ParamField
  extract_fields_with_prefix prefix nothing params = params
  extract_fields_with_prefix prefix (also f fields) params =
      extract_fields_with_prefix prefix fields (add_described prefix (describe_field f) params)
