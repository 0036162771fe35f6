-- ===== src/Docgen/Routers.antt =====
-- The actions of a router file: `ScanRouterFiles`, `ParseRouterFile`, `parseHandler` and
-- `parseExternalHandler` of internal/docgen/parser.go.
pub mod Actions
mod Examples
use mathlib.Core.List.{foldl}
use aqi.Prelude.{
  Bool, true, false, not, ◌&&◌, ◌||◌, List, [], ◌∷◌, ◌++◌, Option, none, some, ◌==◌, comparable_nat,
  if◌then◌else◌,
}
use aqi.Prelude.Dict.{Dict, get}
use aqi.Prelude.Texts.{Text, codes, comparable_text, is_empty, ends_with}
use aqi.Docgen.Doc.{ActionDoc, RouterFile, ReturnType}
use aqi.Docgen.Syntax.{
  Node, ident, selector, func_lit, func_decl, Nodes, nothing, also, visit, visit_all, never,
  method_call, ident_name,
}
use aqi.Docgen.Tags.{extract_comment}
use aqi.Docgen.Middlewares.{extract_string_literal, build_middleware_map, chain_or_empty}
use aqi.Docgen.Returns.{extract_returns}
use aqi.Docgen.Params.{extract_params}
use aqi.Docgen.Packages.{
  GoFile, DirEntry, FileSystem, is_func, any_node, find_package_path, find_handler_file,
  find_package_by_func_name,
}

-- `Action.Description = extractComment(fn.Doc)` where there is a comment
abbrev pub describe : Option (List Text) → ActionDoc → ActionDoc
describe none a = a
describe (some lines) a = record {
  name = a.name;
  description = extract_comment lines;
  router_file = a.router_file;
  middleware_chain = a.middleware_chain;
  middleware_group = a.middleware_group;
  params = a.params;
  returns = a.returns;
}

-- The action of a call `group.Add(name, handler)` before the handler is read.
abbrev pub new_action : Text → Dict Text (List Text) → Text → Text → ActionDoc
new_action router_file chains group name = record {
  name = name;
  description = [];
  router_file = router_file;
  middleware_chain = chain_or_empty (get chains group);
  middleware_group = group;
  params = [];
  returns = record { success_type = []; error_codes = []; has_data = false };
}

-- The name and the handler of a call of `Add`.
abbrev pub add_args : Nodes → Option (Text × Node)
add_args (also name (also handler args)) =
    let text = extract_string_literal name in if is_empty text then none else some (text, handler)
add_args args = none

abbrev pub added_call : Option (Node × (Text × Nodes)) → Option (Text × (Text × Node))
added_call none = none
added_call (some (x, (method, args))) =
    if method == codes "Add"
    then elim (add_args args) [
      | none ↦ none
      | some (name, handler) ↦ some (ident_name x, (name, handler))
    ]
    else none

-- The group, the name and the handler that a node registers.
unfoldable pub added : Node → Option (Text × (Text × Node))
added n = added_call (method_call n)

-- `routerFunc`: the last function of the name
abbrev pub router_func : Text → Option Nodes → List Node → Option Nodes
router_func name found [] = found
router_func name found (func_decl f doc body ∷ ns) =
    if f == name then router_func name (some body) ns else router_func name found ns
router_func name found (n ∷ ns) = router_func name found ns

module _ (printed : Node → Text) (read_dir : FileSystem) where
  -- Parameters and return values of a body.
  unfoldable pub extract_body : GoFile → Text → Node → ActionDoc → ActionDoc
  extract_body file dir body a = record {
    name = a.name;
    description = a.description;
    router_file = a.router_file;
    middleware_chain = a.middleware_chain;
    middleware_group = a.middleware_group;
    params = extract_params printed read_dir file dir body a.params;
    returns = extract_returns printed body a.returns;
  }

  -- `extractParamsFromFuncWithPackage` and `extractReturnsFromFunc`
  abbrev pub extract_func : GoFile → Text → Nodes → ActionDoc → ActionDoc
  extract_func file dir nothing a = a
  extract_func file dir (also body ns) a = extract_body file dir body a

  -- A function of the name that the walk of `parseExternalHandler` meets.
  unfoldable pub external_step : GoFile → Text → Text → ActionDoc → Node → ActionDoc
  external_step file dir name a (func_decl f doc body) =
      let done = describe doc (extract_func file dir body a) in if f == name then done else a
  external_step file dir name a n = a

  -- `parseExternalHandler`, of the file that `findHandlerFile` found
  unfoldable pub parse_external_handler : Text → Option (Text × GoFile) → ActionDoc → ActionDoc
  parse_external_handler name none a = a
  parse_external_handler name (some (dir, file)) a =
      foldl (external_step file dir name) a (visit (is_func name) file.tree)

  -- A handler in a package that the file imports.
  abbrev pub handle_imported : Text → Text → ActionDoc → ActionDoc
  handle_imported path name a =
      if not (is_empty path)
      then parse_external_handler name (find_handler_file read_dir path name) a
      else a

  -- The walk for a handler in the file itself, which takes no description.
  unfoldable pub local_step : GoFile → Text → Text → ActionDoc → Node → ActionDoc
  local_step file dir name a (func_decl f doc body) =
      let done = extract_func file dir body a in if f == name then done else a
  local_step file dir name a n = a

  -- `parseHandler`
  unfoldable pub parse_handler : GoFile → Text → Node → ActionDoc → ActionDoc
  parse_handler file dir (selector x name) a =
      if not (is_empty (ident_name x)) && not (is_empty name)
      then handle_imported (find_package_path (ident_name x) file.imports) name a
      else a
  parse_handler file dir (ident name) a =
      if any_node (is_func name) (visit (is_func name) file.tree)
      then foldl (local_step file dir name) a (visit (is_func name) file.tree)
      else handle_imported (find_package_by_func_name read_dir name file.imports) name a
  parse_handler file dir (func_lit body) a = extract_body file dir body a
  parse_handler file dir n a = a

  abbrev pub parse_added :
      GoFile
      → Text
      → Text
      → Dict Text (List Text)
      → Option (Text × (Text × Node))
      → List ActionDoc
      → List ActionDoc
  parse_added file dir router_file chains none rest = rest
  parse_added file dir router_file chains (some (group, (name, handler))) rest =
      parse_handler file dir handler (new_action router_file chains group name) ∷ rest

  -- The walk over the body of the registration function.
  unfoldable pub parse_actions :
      GoFile → Text → Text → Dict Text (List Text) → List Node → List ActionDoc
  parse_actions file dir router_file chains [] = []
  parse_actions file dir router_file chains (n ∷ ns) =
      parse_added file dir router_file chains (added n)
        (parse_actions file dir router_file chains ns)

  -- `ParseRouterFile` of a file that parses: none where the function is missing, which is an error, or
  -- has no body, where the code panics.
  abbrev pub parse_found : GoFile → Text → Text → Option Nodes → Option (List ActionDoc)
  parse_found file dir router_file none = none
  parse_found file dir router_file (some nothing) = none
  parse_found file dir router_file (some (also body ns)) =
      some (parse_actions file dir router_file (build_middleware_map body) (visit never body))

  unfoldable pub parse_router_file : GoFile → Text → Text → Text → Option (List ActionDoc)
  parse_router_file file dir router_file func_name =
      parse_found file dir router_file
        (router_func func_name none (visit (is_func func_name) file.tree))

-- A call of a method `Add`
unfoldable pub is_add : Node → Bool
is_add n = elim (method_call n) [ none ↦ false | some (x, (method, args)) ↦ method == codes "Add" ]

-- A function that registers actions: `ScanRouterFiles` passes over `events`.
unfoldable pub registers : Node → Bool
registers (func_decl name doc body) =
    any_node is_add (visit_all is_add body) && not (name == codes "events")
registers n = false

abbrev pub func_name : Node → Text
func_name (func_decl name doc body) = name
func_name n = []

abbrev pub routers_in : Text → List Node → List RouterFile
routers_in file_name [] = []
routers_in file_name (n ∷ ns) =
    let rest = routers_in file_name ns in
    if registers n
    then record { file_name = file_name; func_name = func_name n; actions = [] } ∷ rest
    else rest

-- `ScanRouterFiles`, on the files in the order of `filepath.Walk`; the routers that are found, and
-- whether each file could be parsed. The walk ends at the first one that cannot.
unfoldable pub scan_router_files : List DirEntry → List RouterFile × Bool
scan_router_files [] = ([], true)
scan_router_files (e ∷ entries) =
    let (found, all) = scan_router_files entries in
    if e.is_dir || not (ends_with (codes ".go") e.name) then (found, all) else elim e.parsed [
      | none ↦ ([], false)
      | some file ↦ (routers_in e.name (visit registers file.tree) ++ found, all)
    ]
