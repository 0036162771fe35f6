-- ===== src/Docgen/Params/Appends.antt =====
-- The extractions of fields of internal/docgen/parser.go append parameters and change none.
use mathlib.Core.List.{append_assoc, append-nil}
use aqi.Prelude.{
  Bool, true, false, not, ◌&&◌, List, [], ◌∷◌, ◌++◌, Option, none, some, ◌≡◌, refl, sym, ap, ◌∙◌,
  contains, comparable_nat, if◌then◌else◌,
}
use aqi.Prelude.Texts.{Text, comparable_text, is_empty}
use aqi.Docgen.Doc.{ParamField}
use aqi.Docgen.Syntax.{
  Node, ident, selector, struct_type, star, literal, Nodes, nothing, also, visit, ident_name,
}
use aqi.Docgen.Fields.{
  param_names, add_param, append_described, add_described, with_prefix, describe_field,
  extract_fields, extract_fields_with_prefix,
}
use aqi.Docgen.Packages.{
  GoFile, DirEntry, FileSystem, is_struct_spec, find_package_path, find_type_file,
}
use aqi.Docgen.Params.Types.{
  Extract, extract_found, extract_specs, spec_fields, extract_type, has_type, same_package,
  extract_siblings, extract_all_siblings, first_typed, typed, parse_external_type, extract_imported,
  extract_struct_fields_with_package, extract_struct_fields_here, extract_struct_fields,
}

-- The second list is the first one and more behind it.
abbrev pub IsExtended : List ParamField → List ParamField → Type 0
IsExtended params all = (more : List ParamField) × (all ≡ params ++ more)

pub IsExtended-self : (params : List ParamField) → IsExtended params params
IsExtended-self params = ([], sym (append-nil params))

pub IsExtended-trans : (l m n : List ParamField) → IsExtended l m → IsExtended m n → IsExtended l n
IsExtended-trans l m n h k = (h.0 ++ k.0, k.1 ∙ ap (λ x. x ++ k.0) h.1 ∙ append_assoc l h.0 k.0)

pub IsExtended-if :
    (b : Bool) (params l m : List ParamField)
    → IsExtended params l
    → IsExtended params m
    → IsExtended params (if b then l else m)
IsExtended-if true params l m h k = h
IsExtended-if false params l m h k = k

pub add_param-IsExtended :
    (p : ParamField) (params : List ParamField) → IsExtended params (add_param p params)
unfolding add_param
add_param-IsExtended p params =
    IsExtended-if (contains p.name (param_names params)) params params (params ++ p ∷ [])
      (IsExtended-self params) (p ∷ [], refl)

-- An extraction that only appends.
abbrev pub OnlyAppends : Extract → Type 0
OnlyAppends f = (fields : Nodes) (params : List ParamField) → IsExtended params (f fields params)

pub extract_fields-appends : (printed : Node → Text) → OnlyAppends (extract_fields printed)
unfolding extract_fields
extract_fields-appends printed nothing params = IsExtended-self params
extract_fields-appends printed (also f fields) params =
    IsExtended-trans params (append_described printed (describe_field printed f) params)
      (extract_fields printed fields (append_described printed (describe_field printed f) params))
      (go (describe_field printed f))
      (extract_fields-appends printed fields
        (append_described printed (describe_field printed f) params))
  where
    go : (o : Option ParamField) → IsExtended params (append_described printed o params)
    go none = IsExtended-self params
    go (some p) = (p ∷ [], refl)

pub with_prefix-appends :
    (printed : Node → Text) (prefix : Text)
    → OnlyAppends (extract_fields_with_prefix printed prefix)
unfolding extract_fields_with_prefix
with_prefix-appends printed prefix nothing params = IsExtended-self params
with_prefix-appends printed prefix (also f fields) params =
    IsExtended-trans params (add_described printed prefix (describe_field printed f) params)
      (extract_fields_with_prefix printed prefix fields
        (add_described printed prefix (describe_field printed f) params))
      (go (describe_field printed f))
      (with_prefix-appends printed prefix fields
        (add_described printed prefix (describe_field printed f) params))
  where
    go : (o : Option ParamField) → IsExtended params (add_described printed prefix o params)
    go none = IsExtended-self params
    go (some p) = add_param-IsExtended (with_prefix printed prefix p) params

module _ (f : Extract) (h : OnlyAppends f) where
  specs-IsExtended :
      (name : Text) (ns : List Node) (params : List ParamField)
      → IsExtended params (extract_specs f name ns params)
  specs-IsExtended name [] params = IsExtended-self params
  specs-IsExtended name (n ∷ ns) params =
      IsExtended-trans params (extract_found f (spec_fields name n) params)
        (extract_specs f name ns (extract_found f (spec_fields name n) params))
        (go (spec_fields name n))
        (specs-IsExtended name ns (extract_found f (spec_fields name n) params))
    where
      go : (o : Option Nodes) → IsExtended params (extract_found f o params)
      go none = IsExtended-self params
      go (some fields) = h fields params

  pub type-IsExtended :
      (name : Text) (tree : Node) (params : List ParamField)
      → IsExtended params (extract_type f name tree params)
  unfolding extract_type
  type-IsExtended name tree params = specs-IsExtended name (visit (is_struct_spec name) tree) params

  siblings-IsExtended :
      (file : GoFile) (name : Text) (entries : List DirEntry) (params : List ParamField)
      → IsExtended params (extract_siblings f file name entries params)
  unfolding extract_siblings
  siblings-IsExtended file name [] params = IsExtended-self params
  siblings-IsExtended file name (e ∷ entries) params =
      go (same_package file e) (siblings-IsExtended file name entries params)
    where
      go :
          (o : Option GoFile)
          → IsExtended params (extract_siblings f file name entries params)
          → IsExtended params
              (first_typed f name o (extract_siblings f file name entries params) params)
      go none k = k
      go (some other) k =
          IsExtended-if (has_type name other.tree) params (extract_type f name other.tree params)
            (extract_siblings f file name entries params) (type-IsExtended name other.tree params) k

  typed-IsExtended :
      (name : Text) (o : Option GoFile) (params : List ParamField)
      → IsExtended params (typed f name o params)
  typed-IsExtended name none params = IsExtended-self params
  typed-IsExtended name (some other) params = type-IsExtended name other.tree params

  pub all_siblings-IsExtended :
      (file : GoFile) (name : Text) (entries : List DirEntry) (params : List ParamField)
      → IsExtended params (extract_all_siblings f file name entries params)
  unfolding extract_all_siblings
  all_siblings-IsExtended file name [] params = IsExtended-self params
  all_siblings-IsExtended file name (e ∷ entries) params =
      let o : Option GoFile = same_package file e in
      IsExtended-trans params (typed f name o params)
        (extract_all_siblings f file name entries (typed f name o params))
        (typed-IsExtended name o params)
        (all_siblings-IsExtended file name entries (typed f name o params))

  pub external-IsExtended :
      (name : Text) (o : Option (Text × GoFile)) (params : List ParamField)
      → IsExtended params (parse_external_type f name o params)
  unfolding parse_external_type
  external-IsExtended name none params = IsExtended-self params
  external-IsExtended name (some (dir, file)) params = type-IsExtended name file.tree params

  pub imported-IsExtended :
      (read_dir : FileSystem) (file : GoFile) (pkg name : Text) (params : List ParamField)
      → IsExtended params (extract_imported read_dir f file pkg name params)
  unfolding extract_imported
  imported-IsExtended read_dir file pkg name params =
      let path = find_package_path pkg file.imports in
      let o = find_type_file read_dir path name in
      IsExtended-if (not (is_empty pkg) && not (is_empty name)) params
        (if not (is_empty path) then parse_external_type f name o params else params) params
        (IsExtended-if (not (is_empty path)) params (parse_external_type f name o params) params
          (external-IsExtended name o params) (IsExtended-self params))
        (IsExtended-self params)

module _ (printed : Node → Text) (read_dir : FileSystem) (file : GoFile) where
  with_package-IsExtended :
      (dir : Text) (type : Node) (params : List ParamField)
      → IsExtended params (extract_struct_fields_with_package printed read_dir file dir type params)
  unfolding extract_struct_fields_with_package
  with_package-IsExtended dir (star x) params = with_package-IsExtended dir x params
  with_package-IsExtended dir (literal nothing elements) params = IsExtended-self params
  with_package-IsExtended dir (literal (also type ts) elements) params =
      with_package-IsExtended dir type params
  with_package-IsExtended dir (ident name) params =
      let f : Extract = extract_fields printed in
      let here = extract_type f name file.tree params in
      let here_extends = type-IsExtended f (extract_fields-appends printed) name file.tree params in
      IsExtended-if (not (has_type name file.tree) && not (is_empty dir)) params
        (extract_siblings f file name (read_dir dir) here) here
        (IsExtended-trans params here (extract_siblings f file name (read_dir dir) here)
          here_extends
          (siblings-IsExtended f (extract_fields-appends printed) file name (read_dir dir) here))
        here_extends
  with_package-IsExtended dir (selector x name) params =
      imported-IsExtended (extract_fields printed) (extract_fields-appends printed) read_dir file
        (ident_name x) name params
  with_package-IsExtended dir (struct_type fields) params =
      extract_fields-appends printed fields params
  with_package-IsExtended dir n params = IsExtended-self params

  here-IsExtended :
      (type : Node) (params : List ParamField)
      → IsExtended params (extract_struct_fields_here printed read_dir file type params)
  unfolding extract_struct_fields_here
  here-IsExtended (star x) params = here-IsExtended x params
  here-IsExtended (literal nothing elements) params = IsExtended-self params
  here-IsExtended (literal (also type ts) elements) params = here-IsExtended type params
  here-IsExtended (ident name) params =
      type-IsExtended (extract_fields printed) (extract_fields-appends printed) name file.tree
        params
  here-IsExtended (selector x name) params =
      imported-IsExtended (extract_fields printed) (extract_fields-appends printed) read_dir file
        (ident_name x) name params
  here-IsExtended (struct_type fields) params = extract_fields-appends printed fields params
  here-IsExtended n params = IsExtended-self params

  pub struct_fields-IsExtended :
      (dir : Text) (type : Node) (params : List ParamField)
      → IsExtended params (extract_struct_fields printed read_dir file dir type params)
  unfolding extract_struct_fields
  struct_fields-IsExtended dir type params =
      IsExtended-if (not (is_empty dir)) params
        (extract_struct_fields_with_package printed read_dir file dir type params)
        (extract_struct_fields_here printed read_dir file type params)
        (with_package-IsExtended dir type params) (here-IsExtended type params)
