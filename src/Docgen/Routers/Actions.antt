-- ===== src/Docgen/Routers/Actions.antt =====
-- The actions that `ParseRouterFile` of internal/docgen/parser.go lists.
use aqi.Prelude.{List, [], ◌∷◌, ◌++◌, Option, none, some, map}
use aqi.Prelude.Dict.{Dict, get}
use aqi.Prelude.Texts.{Text, comparable_text}
use aqi.Docgen.Doc.{ActionDoc}
use aqi.Docgen.Syntax.{Node, Nodes, nothing, also, visit, never}
use aqi.Docgen.Middlewares.{build_middleware_map, chain_or_empty}
use aqi.Docgen.Routers.{added}

-- What the registration itself says of an action: file, name, group and middlewares.
abbrev pub Heading : Type 0
Heading = Text × (Text × (Text × List Text))

abbrev pub heading : ActionDoc → Heading
heading a = (a.router_file, (a.name, (a.middleware_group, a.middleware_chain)))

-- The headings of the calls of `Add` among some nodes, with the chains of their groups.
abbrev heading_of : Text → Dict Text (List Text) → Option (Text × (Text × Node)) → List Heading
heading_of router_file chains none = []
heading_of router_file chains (some (group, (name, handler))) =
    (router_file, (name, (group, chain_or_empty (get chains group)))) ∷ []

abbrev pub registrations : Text → Dict Text (List Text) → List Node → List Heading
registrations router_file chains [] = []
registrations router_file chains (n ∷ ns) =
    heading_of router_file chains (added n) ++ registrations router_file chains ns

abbrev pub headings : Option (List ActionDoc) → Option (List Heading)
headings none = none
headings (some actions) = some (map heading actions)

abbrev pub registered : Text → Option Nodes → Option (List Heading)
registered router_file none = none
registered router_file (some nothing) = none
registered router_file (some (also body ns)) =
    some (registrations router_file (build_middleware_map body) (visit never body))
