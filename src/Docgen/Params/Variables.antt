-- ===== src/Docgen/Params/Variables.antt =====
-- The type of a variable in a function body, which `extractParamsFromFuncBody` of
-- internal/docgen/parser.go looks for.
use aqi.Prelude.{
  Bool, true, false, ◌&&◌, List, [], ◌∷◌, Option, none, some, ◌==◌, contains, comparable_nat,
  if◌then◌else◌,
}
use aqi.Prelude.Texts.{Text, comparable_text}
use aqi.Docgen.Syntax.{
  Node, literal, assign, var_decl, value_spec, Nodes, nothing, also, visit, is_ident, ident_name,
}

-- The type of a value: of a composite literal its type, if it has one; else the value itself.
unfoldable pub type_of_value : Node → Option Node
type_of_value (literal nothing elements) = none
type_of_value (literal (also type ts) elements) = some type
type_of_value n = some n

-- `infers` is set where a `var` without a type takes the type of its value.
abbrev pub type_of_spec : Bool → Nodes → Nodes → Option Node
type_of_spec infers (also type ts) values = some type
type_of_spec true nothing (also value values) = type_of_value value
type_of_spec infers nothing values = none

-- The loop over the specs of a `var`: none where the name is not declared, and the type, if there
-- is one, where it is.
unfoldable pub declared_type : Bool → Text → Nodes → Option (Option Node)
declared_type infers name nothing = none
declared_type infers name (also (value_spec names type values) specs) =
    let rest = declared_type infers name specs in
    if contains name names then some (type_of_spec infers type values) else rest
declared_type infers name (also n specs) = declared_type infers name specs

abbrev pub first_type : Nodes → Option Node
first_type nothing = none
first_type (also value values) = type_of_value value

abbrev pub rest_of : Nodes → Nodes
rest_of nothing = nothing
rest_of (also n ns) = ns

-- The loop over the left side of `:=`.
unfoldable pub defined_type : Text → Nodes → Nodes → Option (Option Node)
defined_type name nothing rhs = none
defined_type name (also l lhs) rhs =
    let rest = defined_type name lhs (rest_of rhs) in
    if is_ident l && ident_name l == name then some (first_type rhs) else rest

unfoldable pub declares : Bool → Text → Node → Option (Option Node)
declares infers name (var_decl specs) = declared_type infers name specs
declares infers name (assign true lhs rhs) = defined_type name lhs rhs
declares infers name n = none

abbrev pub is_declared : Option (Option Node) → Bool
is_declared none = false
is_declared (some t) = true

abbrev pub newer_type : Option Node → Option (Option Node) → Option Node
newer_type found (some (some type)) = some type
newer_type found o = found

abbrev pub last_type : Bool → Text → Option Node → List Node → Option Node
last_type infers name found [] = found
last_type infers name found (n ∷ ns) =
    last_type infers name (newer_type found (declares infers name n)) ns

-- `varType` behind the walk
unfoldable pub find_var_type : Bool → Text → Node → Option Node
find_var_type infers name body =
    last_type infers name none (visit (λ n. is_declared (declares infers name n)) body)
