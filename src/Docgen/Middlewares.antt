-- ===== src/Docgen/Middlewares.antt =====
-- The middlewares of the routers in a registration function: `buildMiddlewareMap`,
-- `extractMiddlewares` and `extractStringLiteral` of internal/docgen/parser.go.
pub mod Chains
mod Examples
use mathlib.Core.List.{foldl}
use aqi.Prelude.{
  Bool, true, false, not, List, [], ◌∷◌, ◌++◌, Option, none, some, ◌==◌, comparable_nat,
  if◌then◌else◌,
}
use aqi.Prelude.Dict.{Dict, get, put}
use aqi.Prelude.Texts.{Text, codes, comparable_text, trim, is_char, is_empty}
use aqi.Docgen.Syntax.{
  Node, ident, string_lit, assign, Nodes, nothing, also, each, visit, never, method_call,
  ident_name,
}

-- `extractStringLiteral`
unfoldable pub extract_string_literal : Node → Text
extract_string_literal (string_lit t) = trim (is_char b'"') t
extract_string_literal n = []

-- `extractMiddlewares`
unfoldable pub extract_middlewares : List Node → List Text
extract_middlewares [] = []
extract_middlewares (n ∷ args) = elim (method_call n) [
  | none ↦ extract_middlewares args
  | some (x, (name, inner)) ↦ name ∷ extract_middlewares args
]

-- `varInfo`
pub record VarInfo : Type 0 where
  pub var_name : Text
  pub parent_var : Text
  pub middlewares : List Text
  pub is_new_router : Bool

-- What a call of the method `name` on `x` says of the variable it is assigned to.
unfoldable pub info_of_call : Text → Node → Text → Nodes → VarInfo
info_of_call var x name args =
    if name == codes "NewRouter"
    then record { var_name = var; parent_var = []; middlewares = []; is_new_router = true }
    else if name == codes "Use"
    then record {
      var_name = var;
      parent_var = ident_name x;
      middlewares = extract_middlewares (each args);
      is_new_router = false;
    }
    else record { var_name = var; parent_var = []; middlewares = []; is_new_router = false }

abbrev pub info_of_value : Text → Node → VarInfo
info_of_value var value = elim (method_call value) [
  | none ↦ record { var_name = var; parent_var = []; middlewares = []; is_new_router = false }
  | some (x, (name, args)) ↦ info_of_call var x name args
]

-- The first pass: an assignment whose first target is a variable.
unfoldable pub var_info : Node → List VarInfo
unfolding method_call
var_info (assign define (also (ident var) lhs) (also value rhs)) = info_of_value var value ∷ []
var_info n = []

abbrev pub var_infos : List Node → List VarInfo
var_infos [] = []
var_infos (n ∷ ns) = var_info n ++ var_infos ns

abbrev pub chain_or_empty : Option (List Text) → List Text
chain_or_empty none = []
chain_or_empty (some chain) = chain

-- One round of the second pass.
unfoldable pub add_info : Dict Text (List Text) → VarInfo → Dict Text (List Text)
add_info chains info =
    if info.is_new_router
    then put chains info.var_name []
    else if not (is_empty info.parent_var)
    then put chains info.var_name (chain_or_empty (get chains info.parent_var) ++ info.middlewares)
    else put chains info.var_name info.middlewares

-- `buildMiddlewareMap`, from the body of the function
unfoldable pub build_middleware_map : Node → Dict Text (List Text)
build_middleware_map body = foldl add_info [] (var_infos (visit never body))
