-- ===== src/Docgen/Params.antt =====
-- The parameters of a handler: `extractParamsFromFuncBody` of internal/docgen/parser.go.
pub mod Variables
pub mod Types
pub mod Appends
pub mod Steps
pub mod Listed
mod Examples
use mathlib.Core.List.{foldl}
use aqi.Prelude.{
  Bool, true, false, not, ◌&&◌, ◌||◌, List, [], ◌∷◌, Option, none, some, ◌==◌, contains,
  comparable_nat, if◌then◌else◌,
}
use aqi.Prelude.Texts.{Text, codes, comparable_text, is_empty}
use aqi.Docgen.Doc.{ParamField}
use aqi.Docgen.Syntax.{
  Node, ident, selector, struct_type, address, Nodes, nothing, also, visit, never, method_call,
  is_ident, ident_name,
}
use aqi.Docgen.Middlewares.{extract_string_literal}
use aqi.Docgen.Returns.{get_type_string}
use aqi.Docgen.Fields.{add_param, extract_fields_with_prefix, or_else}
use aqi.Docgen.Packages.{GoFile, FileSystem, find_package_path, find_type_file}
use aqi.Docgen.Params.Variables.{find_var_type}
use aqi.Docgen.Params.Types.{
  extract_type, extract_all_siblings, parse_external_type, extract_imported, extract_struct_fields,
}

abbrev pub plain_param : Text → Text → Bool → ParamField
plain_param name type is_required = record {
  name = name;
  type = type;
  is_required = is_required;
  description = [];
}

-- `paramType` of a call of `Get`, `GetInt`, `GetBool` or `GetId`
abbrev pub type_of_getter : Text → Text
type_of_getter method =
    if method == codes "GetInt"
    then codes "int"
    else if method == codes "GetBool"
    then codes "bool"
    else if method == codes "GetId"
    then codes "uint"
    else codes "string"

abbrev pub is_getter : Text → Bool
is_getter method =
    contains method (codes "Get" ∷ codes "GetInt" ∷ codes "GetBool" ∷ codes "GetId" ∷ [])

-- `Get`, `GetInt`, `GetBool` and `GetId`
unfoldable pub getter_param : Text → Nodes → List ParamField → List ParamField
getter_param method nothing params = params
getter_param method (also key args) params =
    if is_empty (extract_string_literal key)
    then params
    else add_param (plain_param (extract_string_literal key) (type_of_getter method) true) params

module _ (printed : Node → Text) (read_dir : FileSystem) (file : GoFile) (dir : Text)
    (body : Node) where
  abbrev pub bind_type : Option Node → List ParamField → List ParamField
  bind_type none params = params
  bind_type (some type) params = extract_struct_fields printed read_dir file dir type params

  -- `BindingJson`, `BindingValidateJson` and `GetJson`
  unfoldable pub bind_params : Nodes → List ParamField → List ParamField
  bind_params (also (address (ident var)) args) params =
      bind_type (find_var_type true var body) params
  bind_params args params = params

  -- The type of the variable that `BindingJsonPath` fills.
  unfoldable pub path_type : Text → Option Node → List ParamField → List ParamField
  path_type path none params = add_param (plain_param path (codes "any") true) params
  path_type path (some (struct_type fields)) params =
      extract_fields_with_prefix printed path fields params
  path_type path (some (selector x name)) params =
      extract_imported read_dir (extract_fields_with_prefix printed path) file (ident_name x) name
        params
  path_type path (some (ident name)) params =
      if not (is_empty dir)
      then extract_all_siblings (extract_fields_with_prefix printed path) file name (read_dir dir)
          params
      else extract_type (extract_fields_with_prefix printed path) name file.tree params
  path_type path (some type) params =
      add_param (plain_param path (get_type_string printed type) true) params

  -- `BindingJsonPath`
  unfoldable pub path_params : Nodes → List ParamField → List ParamField
  path_params (also (address (ident var)) (also path args)) params =
      path_type (or_else (extract_string_literal path) (codes "path"))
        (find_var_type false var body) params
  path_params args params = params

  -- `GetPagination` and `GetMaxPagination`
  unfoldable pub page_params : List ParamField → List ParamField
  page_params params =
      let path = find_package_path (codes "ws") file.imports in
      if not (is_empty path)
      then parse_external_type (extract_fields_with_prefix printed (codes "page")) (codes "Page")
          (find_type_file read_dir path (codes "Page")) params
      else add_param (plain_param (codes "page.pageSize") (codes "int") false)
          (add_param (plain_param (codes "page.current") (codes "int") false) params)

  abbrev pub param_of_call : Node → Text → Nodes → List ParamField → List ParamField
  param_of_call x method args params =
      if contains method (codes "BindingJson" ∷ codes "BindingValidateJson" ∷ codes "GetJson" ∷ [])
      then bind_params args params
      else if method == codes "BindingJsonPath"
      then path_params args params
      else if is_ident x && contains method (codes "GetPagination" ∷ codes "GetMaxPagination" ∷ [])
      then page_params params
      else if is_ident x && is_getter method
      then getter_param method args params
      else params

  abbrev pub param_of : List ParamField → Option (Node × (Text × Nodes)) → List ParamField
  param_of params none = params
  param_of params (some (x, (method, args))) = param_of_call x method args params

  -- One node of the walk.
  unfoldable pub param_step : List ParamField → Node → List ParamField
  param_step params n = param_of params (method_call n)

  -- `extractParamsFromFuncBody`
  unfoldable pub extract_params : List ParamField → List ParamField
  extract_params params = foldl param_step params (visit never body)
