-- ===== src/Docgen/Params/Steps.antt =====
-- The steps of `extractParamsFromFuncBody` of internal/docgen/parser.go only append parameters.
use mathlib.Core.List.{foldl}
use aqi.Prelude.{
  Bool, true, false, not, ◌&&◌, ◌||◌, List, [], ◌∷◌, ◌++◌, Option, none, some, ◌≡◌, refl, ap, ◌∙◌,
  ◌==◌, ==_iff, contains, contains-append, comparable_nat, if◌then◌else◌, Bool-cases, inl, inr,
  arith,
}
use aqi.Prelude.Texts.{Text, codes, comparable_text, is_empty}
use aqi.Docgen.Doc.{ParamField}
use aqi.Docgen.Syntax.{
  Node, ident, selector, struct_type, address, Nodes, nothing, also, method_call, is_ident,
  ident_name,
}
use aqi.Docgen.Middlewares.{extract_string_literal}
use aqi.Docgen.Returns.{get_type_string}
use aqi.Docgen.Fields.{param_names, add_param, extract_fields_with_prefix, or_else}
use aqi.Docgen.Packages.{GoFile, FileSystem, find_package_path, find_type_file}
use aqi.Docgen.Params.{
  plain_param, is_getter, type_of_getter, getter_param, bind_params, bind_type, path_type,
  path_params, page_params, param_of, param_of_call, param_step,
}
use aqi.Docgen.Params.Types.{extract_type, extract_all_siblings, parse_external_type}
use aqi.Docgen.Params.Variables.{find_var_type}
use aqi.Docgen.Params.Appends.{
  IsExtended, IsExtended-self, IsExtended-trans, IsExtended-if, add_param-IsExtended,
  with_prefix-appends, type-IsExtended, all_siblings-IsExtended, external-IsExtended,
  imported-IsExtended, struct_fields-IsExtended,
}

getter-IsExtended :
    (method : Text) (args : Nodes) (params : List ParamField)
    → IsExtended params (getter_param method args params)
unfolding getter_param
getter-IsExtended method nothing params = IsExtended-self params
getter-IsExtended method (also key args) params =
    let p : ParamField = plain_param (extract_string_literal key) (type_of_getter method) true in
    IsExtended-if (is_empty (extract_string_literal key)) params params (add_param p params)
      (IsExtended-self params) (add_param-IsExtended p params)

param_names-append : (l m : List ParamField) → param_names (l ++ m) ≡ param_names l ++ param_names m
param_names-append [] m = refl
param_names-append (p ∷ l) m = ap (λ t. p.name ∷ t) (param_names-append l m)

pub extended-contains :
    (l m : List ParamField) (name : Text)
    → IsExtended l m
    → contains name (param_names l) ≡ true
    → contains name (param_names m) ≡ true
extended-contains l m name (more, e) h =
    ap (λ x. contains name (param_names x)) e
    ∙ ap (contains name) (param_names-append l more)
    ∙ contains-append name (param_names l) (param_names more)
    ∙ ap (λ b. b || contains name (param_names more)) h

pub contains-add_param :
    (p : ParamField) (params : List ParamField)
    → contains p.name (param_names (add_param p params)) ≡ true
unfolding add_param
contains-add_param p params = elim (Bool-cases (contains p.name (param_names params))) [
  | inl t ↦ rw (t, if◌then◌else◌) t
  | inr f ↦
      rw (f, if◌then◌else◌)
        (ap (contains p.name) (param_names-append params (p ∷ []))
          ∙ contains-append p.name (param_names params) (p.name ∷ [])
          ∙ ground (arith, ==_iff p.name p.name))
]

module _ (printed : Node → Text) (read_dir : FileSystem) (file : GoFile) (dir : Text)
    (body : Node) where
  bind-IsExtended :
      (args : Nodes) (params : List ParamField)
      → IsExtended params (bind_params printed read_dir file dir body args params)
  unfolding bind_params
  bind-IsExtended (also (address (ident var)) args) params = go (find_var_type true var body)
    where
      go : (o : Option Node) → IsExtended params (bind_type printed read_dir file dir body o params)
      go none = IsExtended-self params
      go (some type) = struct_fields-IsExtended printed read_dir file dir type params
  bind-IsExtended args params = IsExtended-self params

  path_type-IsExtended :
      (path : Text) (o : Option Node) (params : List ParamField)
      → IsExtended params (path_type printed read_dir file dir body path o params)
  unfolding path_type
  path_type-IsExtended path none params =
      add_param-IsExtended (plain_param path (codes "any") true) params
  path_type-IsExtended path (some (struct_type fields)) params =
      with_prefix-appends printed path fields params
  path_type-IsExtended path (some (selector x name)) params =
      imported-IsExtended (extract_fields_with_prefix printed path)
        (with_prefix-appends printed path) read_dir file (ident_name x) name params
  path_type-IsExtended path (some (ident name)) params =
      IsExtended-if (not (is_empty dir)) params
        (extract_all_siblings (extract_fields_with_prefix printed path) file name (read_dir dir)
          params)
        (extract_type (extract_fields_with_prefix printed path) name file.tree params)
        (all_siblings-IsExtended (extract_fields_with_prefix printed path)
          (with_prefix-appends printed path) file name (read_dir dir) params)
        (type-IsExtended (extract_fields_with_prefix printed path)
          (with_prefix-appends printed path) name file.tree params)
  path_type-IsExtended path (some type) params =
      add_param-IsExtended (plain_param path (get_type_string printed type) true) params

  path-IsExtended :
      (args : Nodes) (params : List ParamField)
      → IsExtended params (path_params printed read_dir file dir body args params)
  unfolding path_params
  path-IsExtended (also (address (ident var)) (also path args)) params =
      path_type-IsExtended (or_else (extract_string_literal path) (codes "path"))
        (find_var_type false var body) params
  path-IsExtended args params = IsExtended-self params

  page-IsExtended :
      (params : List ParamField)
      → IsExtended params (page_params printed read_dir file dir body params)
  unfolding page_params
  page-IsExtended params =
      let path = find_package_path (codes "ws") file.imports in
      let f = extract_fields_with_prefix printed (codes "page") in
      let o = find_type_file read_dir path (codes "Page") in
      let one = plain_param (codes "page.current") (codes "int") false in
      let two = plain_param (codes "page.pageSize") (codes "int") false in
      IsExtended-if (not (is_empty path)) params (parse_external_type f (codes "Page") o params)
        (add_param two (add_param one params))
        (external-IsExtended f (with_prefix-appends printed (codes "page")) (codes "Page") o params)
        (IsExtended-trans params (add_param one params) (add_param two (add_param one params))
          (add_param-IsExtended one params) (add_param-IsExtended two (add_param one params)))

  call-IsExtended :
      (x : Node) (method : Text) (args : Nodes) (params : List ParamField)
      → IsExtended params (param_of_call printed read_dir file dir body x method args params)
  call-IsExtended x method args params =
      go
        (contains method (codes "BindingJson" ∷ codes "BindingValidateJson" ∷ codes "GetJson" ∷ []))
        (method == codes "BindingJsonPath")
        (is_ident x && contains method (codes "GetPagination" ∷ codes "GetMaxPagination" ∷ []))
        (is_ident x && is_getter method)
    where
      go :
          (a b c d : Bool)
          → IsExtended params (
              if a
              then bind_params printed read_dir file dir body args params
              else if b
              then path_params printed read_dir file dir body args params
              else if c
              then page_params printed read_dir file dir body params
              else if d
              then getter_param method args params
              else params)
      go true b c d = bind-IsExtended args params
      go false true c d = path-IsExtended args params
      go false false true d = page-IsExtended params
      go false false false true = getter-IsExtended method args params
      go false false false false = IsExtended-self params

  pub step-IsExtended :
      (params : List ParamField) (n : Node)
      → IsExtended params (param_step printed read_dir file dir body params n)
  unfolding param_step
  step-IsExtended params n = go (method_call n)
    where
      go :
          (o : Option (Node × (Text × Nodes)))
          → IsExtended params (param_of printed read_dir file dir body params o)
      go none = IsExtended-self params
      go (some (x, (method, args))) = call-IsExtended x method args params

  pub fold-IsExtended :
      (ns : List Node) (params : List ParamField)
      → IsExtended params (foldl (param_step printed read_dir file dir body) params ns)
  fold-IsExtended [] params = IsExtended-self params
  fold-IsExtended (n ∷ ns) params =
      let once = param_step printed read_dir file dir body params n in
      IsExtended-trans params once (foldl (param_step printed read_dir file dir body) once ns)
        (step-IsExtended params n) (fold-IsExtended ns once)
