-- ===== src/Docgen/Params/Listed.antt =====
-- Which parameters `extractParamsFromFuncBody` of internal/docgen/parser.go lists.
use mathlib.Core.List.{foldl}
use aqi.Prelude.{
  true, false, List, [], ◌∷◌, ◌++◌, ◌≡◌, refl, ap, ◌∙◌, ◌==◌, ==_iff, contains, comparable_nat,
  if◌then◌else◌, Bool-cases, inl, inr, arith,
}
use aqi.Prelude.Texts.{Text, codes, comparable_text, is_empty}
use aqi.Docgen.Doc.{ParamField}
use aqi.Docgen.Syntax.{
  Node, ident, selector, call, Nodes, also, visit, never, method_call, is_ident,
}
use aqi.Docgen.Middlewares.{extract_string_literal}
use aqi.Docgen.Fields.{param_names}
use aqi.Docgen.Packages.{GoFile, FileSystem}
use aqi.Docgen.Params.{
  plain_param, is_getter, type_of_getter, getter_param, param_step, extract_params,
}
use aqi.Docgen.Params.Appends.{IsExtended}
use aqi.Docgen.Params.Steps.{extended-contains, contains-add_param, fold-IsExtended}

module _ (printed : Node → Text) (read_dir : FileSystem) (file : GoFile) (dir : Text)
    (body : Node) where
  fold-append :
      (before after : List Node) (params : List ParamField)
      → foldl (param_step printed read_dir file dir body) params (before ++ after)
        ≡ foldl
            (param_step printed read_dir file dir body)
            (foldl (param_step printed read_dir file dir body) params before)
            after
  fold-append [] after params = refl
  fold-append (n ∷ before) after params =
      fold-append before after (param_step printed read_dir file dir body params n)

  getter-runs :
      (x method : Text) (key : Node) (args : Nodes) (params : List ParamField)
      → is_getter method ≡ true
      → param_step printed read_dir file dir body params
          (call (selector (ident x) method) (also key args))
        ≡ getter_param method (also key args) params
  unfolding param_step method_call is_ident
  getter-runs x method key args params h = elim (Bool-cases (method == codes "Get")) [
    | inl t ↦ rw ((==_iff method (codes "Get")).0 t) refl
    | inr f ↦ elim (Bool-cases (method == codes "GetInt")) [
      | inl t ↦ rw ((==_iff method (codes "GetInt")).0 t) refl
      | inr g ↦ elim (Bool-cases (method == codes "GetBool")) [
        | inl t ↦ rw ((==_iff method (codes "GetBool")).0 t) refl
        | inr k ↦ elim (Bool-cases (method == codes "GetId")) [
          | inl t ↦ rw ((==_iff method (codes "GetId")).0 t) refl
          | inr l ↦ absurd (ground (arith, h, f, g, k, l))
        ]
      ]
    ]
  ]

  getter-contains :
      (method : Text) (key : Node) (args : Nodes) (params : List ParamField)
      → is_empty (extract_string_literal key) ≡ false
      → contains
          (extract_string_literal key)
          (param_names (getter_param method (also key args) params))
        ≡ true
  unfolding getter_param
  getter-contains method key args params h =
      rw (h, if◌then◌else◌)
        (contains-add_param (plain_param (extract_string_literal key) (type_of_getter method) true)
          params)

  -- The parameters of a handler stand behind those that were listed before, which stay as they are.
  pub extract_params-IsExtended :
      (params : List ParamField)
      → IsExtended params (extract_params printed read_dir file dir body params)
  unfolding extract_params
  extract_params-IsExtended params =
      fold-IsExtended printed read_dir file dir body (visit never body) params

  -- Each call in the body of `Get`, `GetInt`, `GetBool` or `GetId` on a variable, with a first
  -- argument that is a string literal and not empty, has its key listed as a parameter, whatever the
  -- calls before and behind it are.
  pub extract_params_lists :
      (params : List ParamField) (before after : List Node) (x method : Text) (key : Node)
      (args : Nodes)
      → visit never body ≡ before ++ call (selector (ident x) method) (also key args) ∷ after
      → is_getter method ≡ true
      → is_empty (extract_string_literal key) ≡ false
      → contains
          (extract_string_literal key)
          (param_names (extract_params printed read_dir file dir body params))
        ≡ true
  unfolding extract_params
  extract_params_lists params before after x method key args e g h =
      let step = param_step printed read_dir file dir body in
      let n : Node = call (selector (ident x) method) (also key args) in
      let old : List ParamField = foldl step params before in
      let name = extract_string_literal key in
      ap (λ l. contains name (param_names (foldl step params l))) e
      ∙ ap (λ l. contains name (param_names l)) (fold-append before (n ∷ after) params)
      ∙ extended-contains (step old n) (foldl step (step old n) after) name
          (fold-IsExtended printed read_dir file dir body after (step old n))
          (ap (λ l. contains name (param_names l)) (getter-runs x method key args old g)
            ∙ getter-contains method key args old h)
