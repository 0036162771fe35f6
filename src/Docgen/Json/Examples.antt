-- ===== src/Docgen/Json/Examples.antt =====
-- Example requests (internal/docgen/generator.go).
use aqi.Prelude.{true, [], ◌∷◌, some, ◌≡◌, refl}
use aqi.Prelude.Dict.{get, put}
use aqi.Prelude.Texts.{Text, codes}
use aqi.Docgen.Doc.{ParamField}
use aqi.Docgen.Json.{number, example_params, add_example, get_json_example_value}
use aqi.Docgen.Json.Samples.{lookup}
use aqi.Docgen.Json.Requests.{example_params-lookup}

abbrev required : Text → Text → ParamField
required name type = record { name = name; type = type; is_required = true; description = [] }

abbrev current : ParamField
current = required (codes "page.current") (codes "int")

example_params-lookup_example :
    lookup
      (example_params (
        required (codes "name") (codes "string")
        ∷ current
        ∷ required (codes "page.size") (codes "int")
        ∷ []))
      (codes "page.current")
    ≡ some number
unfolding get_json_example_value
example_params-lookup_example =
    example_params-lookup (required (codes "name") (codes "string") ∷ [])
      (required (codes "page.size") (codes "int") ∷ []) current refl (refl, tt) (refl, tt)

-- A parameter and a field of it: whichever comes first, the field is lost.
field_lost :
    example_params (required (codes "page") (codes "ws.Page") ∷ current ∷ [])
    ≡ example_params (current ∷ required (codes "page") (codes "ws.Page") ∷ [])
unfolding example_params add_example get_json_example_value get put
field_lost = refl
