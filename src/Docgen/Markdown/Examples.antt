-- ===== src/Docgen/Markdown/Examples.antt =====
-- A document with one action (internal/docgen/generator.go).
use aqi.Prelude.{true, [], ◌∷◌, ◌++◌, none, ◌≡◌, refl, ◌==◌, comparable_nat, arith}
use aqi.Prelude.Texts.{codes, comparable_text, digits}
use aqi.Prelude.Sorting.{sort_by}
use aqi.Docgen.Doc.{ActionDoc, RouterFile, Metadata}
use aqi.Docgen.Syntax.{int_lit}
use aqi.Docgen.Returns.{extract_int_value}
use aqi.Docgen.Markdown.{
  newline, format_example, get_example_value, format_error_codes, Metadata, generate_markdown,
}
use aqi.Docgen.Markdown.Numbers.{extract-decimal}
use aqi.Docgen.Markdown.Sections.{HasSection, generate_markdown_lists}

extract-decimal_example : extract_int_value (int_lit (codes "404")) ≡ 404
unfolding digits
extract-decimal_example = extract-decimal 404 (omega arith)

abbrev get_user : ActionDoc
get_user = record {
  name = codes "user.get";
  description = [];
  router_file = codes "user.go";
  middleware_chain = [];
  middleware_group = [];
  params =
      record { name = codes "id"; type = codes "int"; is_required = true; description = [] } ∷ [];
  returns = record { success_type = []; error_codes = []; has_data = true };
}

example_text : format_example get_user ≡ codes "`{\"action\":\"user.get\",\"params\":{\"id\": 0}}`"
unfolding format_example get_example_value
example_text = refl

codes_in_order :
    format_error_codes
      (record { code = 22; message = codes "b" } ∷ record { code = 3; message = codes "a" } ∷ [])
    ≡ newline
      ++ (codes "**错误码：**"
          ++ (newline
              ++ (newline ++ (codes "- `3`: a" ++ (newline ++ (codes "- `22`: b" ++ newline))))))
unfolding format_error_codes sort_by digits
codes_in_order = refl

abbrev user_file : RouterFile
user_file = record {
  file_name = codes "user.go";
  func_name = codes "User";
  actions = get_user ∷ [];
}

abbrev empty_file : RouterFile
empty_file = record { file_name = codes "none.go"; func_name = codes "None"; actions = [] }

abbrev metadata : Metadata
metadata = record {
  project_name = codes "p";
  version = [];
  description = [];
  author = [];
  contact = [];
}

generate_markdown_lists_example :
    HasSection
      (λ a. a.name == codes "user.get")
      (generate_markdown none metadata [] (empty_file ∷ user_file ∷ []))
generate_markdown_lists_example =
    generate_markdown_lists (λ a. a.name == codes "user.get") none metadata [] (empty_file ∷ []) []
      user_file (omega arith)
