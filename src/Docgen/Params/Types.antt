-- ===== src/Docgen/Params/Types.antt =====
-- The parameters of a named or written out type: `extractStructFields`,
-- `extractStructFieldsWithPackage`, `parseExternalType` and `parseExternalTypeWithPrefix` of
-- internal/docgen/parser.go.
use aqi.Prelude.{
  Bool, not, ◌&&◌, ◌||◌, List, [], ◌∷◌, Option, none, some, ◌==◌, comparable_nat, if◌then◌else◌,
}
use aqi.Prelude.Texts.{Text, codes, comparable_text, ends_with, is_empty}
use aqi.Docgen.Doc.{ParamField}
use aqi.Docgen.Syntax.{
  Node, ident, selector, star, literal, struct_type, type_spec, Nodes, nothing, also, visit,
  ident_name,
}
use aqi.Docgen.Fields.{extract_fields}
use aqi.Docgen.Packages.{
  GoFile, DirEntry, FileSystem, is_struct_spec, any_node, find_package_path, find_type_file,
}

-- The fields of a struct type of the name.
unfoldable pub spec_fields : Text → Node → Option Nodes
spec_fields name (type_spec t (struct_type fields)) = if t == name then some fields else none
spec_fields name n = none

-- What the two walks do with the fields that they find.
abbrev pub Extract : Type 0
Extract = Nodes → List ParamField → List ParamField

abbrev pub extract_found : Extract → Option Nodes → List ParamField → List ParamField
extract_found f none params = params
extract_found f (some fields) params = f fields params

abbrev pub extract_specs : Extract → Text → List Node → List ParamField → List ParamField
extract_specs f name [] params = params
extract_specs f name (n ∷ ns) params =
    extract_specs f name ns (extract_found f (spec_fields name n) params)

-- The walk over a file.
unfoldable pub extract_type : Extract → Text → Node → List ParamField → List ParamField
extract_type f name tree params = extract_specs f name (visit (is_struct_spec name) tree) params

unfoldable pub has_type : Text → Node → Bool
has_type name tree = any_node (is_struct_spec name) (visit (is_struct_spec name) tree)

-- A Go file of the package that parses.
unfoldable pub same_package : GoFile → DirEntry → Option GoFile
same_package file e =
    if e.is_dir || not (ends_with (codes ".go") e.name) then none else elim e.parsed [
      | none ↦ none
      | some other ↦ (if other.package_name == file.package_name then some other else none)
    ]

abbrev pub first_typed :
    Extract → Text → Option GoFile → List ParamField → List ParamField → List ParamField
first_typed f name none rest params = rest
first_typed f name (some other) rest params =
    if has_type name other.tree then extract_type f name other.tree params else rest

-- The loop over the other files of the package, up to the first one with the type.
unfoldable pub extract_siblings :
    Extract → GoFile → Text → List DirEntry → List ParamField → List ParamField
extract_siblings f file name [] params = params
extract_siblings f file name (e ∷ entries) params =
    first_typed f name (same_package file e) (extract_siblings f file name entries params) params

abbrev pub typed : Extract → Text → Option GoFile → List ParamField → List ParamField
typed f name none params = params
typed f name (some other) params = extract_type f name other.tree params

-- The loop over all files of the package, for a type with a prefix.
unfoldable pub extract_all_siblings :
    Extract → GoFile → Text → List DirEntry → List ParamField → List ParamField
extract_all_siblings f file name [] params = params
extract_all_siblings f file name (e ∷ entries) params =
    extract_all_siblings f file name entries (typed f name (same_package file e) params)

-- `parseExternalType`, of the file that `findTypeFile` found
unfoldable pub parse_external_type :
    Extract → Text → Option (Text × GoFile) → List ParamField → List ParamField
parse_external_type f name none params = params
parse_external_type f name (some (dir, file)) params = extract_type f name file.tree params

-- `pkg.Name`
unfoldable pub extract_imported :
    FileSystem → Extract → GoFile → Text → Text → List ParamField → List ParamField
extract_imported read_dir f file pkg name params =
    let path = find_package_path pkg file.imports in
    if not (is_empty pkg) && not (is_empty name)
    then (if not (is_empty path)
        then parse_external_type f name (find_type_file read_dir path name) params
        else params)
    else params

module _ (printed : Node → Text) (read_dir : FileSystem) where
  -- `extractStructFieldsWithPackage`
  unfoldable pub extract_struct_fields_with_package :
      GoFile → Text → Node → List ParamField → List ParamField
  extract_struct_fields_with_package file dir (star x) params =
      extract_struct_fields_with_package file dir x params
  extract_struct_fields_with_package file dir (literal nothing elements) params = params
  extract_struct_fields_with_package file dir (literal (also type ts) elements) params =
      extract_struct_fields_with_package file dir type params
  extract_struct_fields_with_package file dir (ident name) params =
      let here = extract_type (extract_fields printed) name file.tree params in
      if not (has_type name file.tree) && not (is_empty dir)
      then extract_siblings (extract_fields printed) file name (read_dir dir) here
      else here
  extract_struct_fields_with_package file dir (selector x name) params =
      extract_imported read_dir (extract_fields printed) file (ident_name x) name params
  extract_struct_fields_with_package file dir (struct_type fields) params =
      extract_fields printed fields params
  extract_struct_fields_with_package file dir n params = params

  -- `extractStructFields` without a directory
  unfoldable pub extract_struct_fields_here : GoFile → Node → List ParamField → List ParamField
  extract_struct_fields_here file (star x) params = extract_struct_fields_here file x params
  extract_struct_fields_here file (literal nothing elements) params = params
  extract_struct_fields_here file (literal (also type ts) elements) params =
      extract_struct_fields_here file type params
  extract_struct_fields_here file (ident name) params =
      extract_type (extract_fields printed) name file.tree params
  extract_struct_fields_here file (selector x name) params =
      extract_imported read_dir (extract_fields printed) file (ident_name x) name params
  extract_struct_fields_here file (struct_type fields) params = extract_fields printed fields params
  extract_struct_fields_here file n params = params

  -- `extractStructFields`
  unfoldable pub extract_struct_fields : GoFile → Text → Node → List ParamField → List ParamField
  extract_struct_fields file dir type params =
      if not (is_empty dir)
      then extract_struct_fields_with_package file dir type params
      else extract_struct_fields_here file type params
