-- ===== src/Docgen/Markdown.antt =====
-- The Markdown document of internal/docgen/generator.go: `GenerateMarkdown` and the functions that
-- format an action.
pub mod Numbers
pub mod Sections
mod Examples
use aqi.Prelude.{
  ℕ, zero, suc, ◌+◌, Bool, true, false, not, ◌&&◌, ◌||◌, List, [], ◌∷◌, ◌++◌, Option, none, some,
  ◌==◌, comparable_nat, contains, if◌then◌else◌, ltb,
}
use Prim.Native.Nat.{◌/◌, ◌%◌}
use aqi.Prelude.Dict.{Dict}
use aqi.Prelude.Texts.{Text, codes, comparable_text, is_empty, is_char, join_texts, trim, decimal}
use aqi.Prelude.Sorting.{sort_by}
use aqi.Docgen.Doc.{ParamField, ErrorCode, ReturnType, ActionDoc, RouterFile, Metadata}
use aqi.Docgen.Json.{is_number_type}
use aqi.Docgen.Groups.{arrange, get_group_display_name, get_file_title}

-- A line break
abbrev pub newline : Text
newline = 10 ∷ []

-- `formatParamsList`
abbrev pub or_text : Text → Text → Text
or_text t other = if is_empty t then other else t

abbrev pub param_line : ParamField → Text
param_line p =
    codes "- `"
    ++ (p.name
        ++ (codes "` ("
            ++ (or_text p.type (codes "any")
                ++ (codes ", "
                    ++ ((if p.is_required then codes "必需" else codes "可选")
                        ++ (codes "): " ++ (or_text p.description (codes "-") ++ newline)))))))

unfoldable pub format_params_list : List ParamField → Text
format_params_list [] = []
format_params_list (p ∷ params) = param_line p ++ format_params_list params

-- `formatReturns`
unfoldable pub format_returns : ReturnType → Text
format_returns r =
    if r.has_data
    then (if not (is_empty r.success_type) && not (r.success_type == codes "any")
        then codes "数据对象 (" ++ (r.success_type ++ codes ")")
        else codes "数据对象")
    else codes "状态码"

-- `getExampleValue`
unfoldable pub get_example_value : Text → Text
get_example_value type =
    if is_number_type type
    then codes "0"
    else if type == codes "bool"
    then codes "true"
    else if type == codes "[]string"
    then codes "[]"
    else codes "\"\""

-- The required parameters of `formatExample`.
abbrev pub example_fields : List ParamField → List Text
example_fields [] = []
example_fields (p ∷ params) =
    let rest = example_fields params in
    if p.is_required
    then (codes "\"" ++ (p.name ++ (codes "\": " ++ get_example_value p.type))) ∷ rest
    else rest

-- `formatExample`
unfoldable pub format_example : ActionDoc → Text
format_example a =
    let fields = example_fields a.params in
    let text =
      if is_empty fields
      then codes "{}"
      else codes "{" ++ (join_texts (codes ", ") fields ++ codes "}") in
    codes "`{\"action\":\"" ++ (a.name ++ (codes "\",\"params\":" ++ (text ++ codes "}`")))

abbrev pub code_lines : List ErrorCode → Text
code_lines [] = []
code_lines (e ∷ errors) =
    codes "- `"
    ++ (decimal e.code ++ (codes "`: " ++ (e.message ++ (newline ++ code_lines errors))))

-- `formatErrorCodes`
unfoldable pub format_error_codes : List ErrorCode → Text
format_error_codes [] = []
format_error_codes (e ∷ errors) =
    newline
    ++ (codes "**错误码：**"
        ++ (newline
            ++ (newline
                ++ code_lines (sort_by (λ (a b : ErrorCode). ltb a.code b.code) (e ∷ errors)))))

-- `strings.Repeat("#", level)`
abbrev pub hashes : ℕ → Text
hashes zero = []
hashes (suc level) = b'#' ∷ hashes level

abbrev pub two_lines : Text
two_lines = newline ++ newline

-- `formatAction`
unfoldable pub format_action : ActionDoc → ℕ → Text
format_action a level =
    let params = format_params_list a.params in
    hashes level
    ++ (codes " `"
        ++ (a.name
            ++ (codes "`"
                ++ (two_lines
                    ++ ((if is_empty a.description
                          then []
                          else codes "**功能描述：** " ++ (a.description ++ two_lines))
                        ++ ((if is_empty params
                              then codes "**参数说明：** 无" ++ two_lines
                              else codes "**参数说明：**" ++ (two_lines ++ (params ++ two_lines)))
                            ++ (codes "**返回值：** "
                                ++ (format_returns a.returns
                                    ++ (two_lines
                                        ++ (codes "**使用示例：**"
                                            ++ (two_lines
                                                ++ (codes "```json"
                                                    ++ (newline
                                                        ++ (trim (is_char b'`') (format_example a)
                                                            ++ (newline
                                                            ++ (codes "```"
                                                            ++ (two_lines
                                                            ++ (if is_empty a.returns.error_codes
                                                            then []
                                                            else format_error_codes
                                                            a.returns.error_codes
                                                            ++ newline))))))))))))))))))

-- The sections of a group.
abbrev pub action_sections : List ActionDoc → Text
action_sections [] = []
action_sections (a ∷ actions) = format_action a 4 ++ (newline ++ action_sections actions)

abbrev pub group_title : Option (Dict Text Text) → Text → Text
group_title names key =
    if is_empty key then [] else codes "### " ++ (get_group_display_name names key ++ two_lines)

abbrev pub group_sections : Option (Dict Text Text) → List (Text × List ActionDoc) → Text
group_sections names [] = []
group_sections names ((key, actions) ∷ groups) =
    group_title names key ++ (action_sections actions ++ (newline ++ group_sections names groups))

-- The loop over the router files.
unfoldable pub file_sections : Option (Dict Text Text) → List RouterFile → Text
file_sections names [] = []
file_sections names (rf ∷ files) =
    let rest = file_sections names files in
    if is_empty rf.actions
    then rest
    else codes "## "
      ++ (get_file_title rf.file_name
          ++ (two_lines ++ (group_sections names (arrange rf.actions) ++ rest)))

abbrev pub unless_empty : Text → Text → Text
unless_empty t text = if is_empty t then [] else text

-- What `GenerateMarkdown` writes of the metadata.
unfoldable pub document_head : Metadata → Text
document_head m =
    codes "# "
    ++ (m.project_name
        ++ (codes " API 命令文档"
            ++ (unless_empty m.version (codes " (v" ++ (m.version ++ codes ")"))
                ++ (two_lines
                    ++ (unless_empty m.description (m.description ++ two_lines)
                        ++ unless_empty (m.author ++ m.contact) (
                            codes "**项目信息：**"
                            ++ (two_lines
                                ++ (unless_empty m.author (codes "- 作者：" ++ (m.author ++ newline))
                                    ++ (unless_empty m.contact
                                          (codes "- 联系方式：" ++ (m.contact ++ newline))
                                        ++ newline)))))))))

-- `GenerateMarkdown`; `usage` is the fixed text on requests.
unfoldable pub generate_markdown :
    Option (Dict Text Text) → Metadata → Text → List RouterFile → Text
generate_markdown names m usage files = document_head m ++ (usage ++ file_sections names files)
