-- ===== src/Docgen/Middlewares/Examples.antt =====
-- Chains in a small registration function (internal/docgen/parser.go).
use aqi.Prelude.{[], ◌∷◌, ◌≡◌, refl}
use aqi.Prelude.Dict.{get, put}
use aqi.Prelude.Texts.{Text, codes}
use aqi.Docgen.Syntax.{
  Node, Nodes, ident, call, selector, other, nothing, also, followed, visit, method_call,
  ident_name,
}
use aqi.Docgen.Middlewares.{
  extract_middlewares, info_of_call, var_info, add_info, build_middleware_map,
}
use aqi.Docgen.Middlewares.Chains.{chain_of, derived, chain_of-derived}

-- `mw.name()`
abbrev middleware : Text → Node
middleware name = call (selector (ident (codes "mw")) name) nothing

-- `r := ws.NewRouter(); app := r.Use(mw.App())`
abbrev statements : Nodes
statements = also (derived (codes "r") (codes "ws") (codes "NewRouter") nothing) (
    also (derived (codes "app") (codes "r") (codes "Use") (also (middleware (codes "App")) nothing))
      nothing)

abbrev auth : Nodes
auth = also (middleware (codes "Auth")) nothing

chain_of-derived_example :
    chain_of
      (other (
        followed statements
          (also (derived (codes "user") (codes "app") (codes "Use") auth) nothing)))
      (codes "user")
    ≡ codes "App" ∷ codes "Auth" ∷ []
unfolding visit method_call var_info info_of_call extract_middlewares add_info build_middleware_map
    get put ident_name
chain_of-derived_example =
    chain_of-derived statements (codes "user") (codes "app") (codes "Use") auth (codes "user") refl
      refl

-- A group has no middlewares in the documentation.
group_has_none :
    chain_of
      (other (
        followed statements
          (also (derived (codes "user") (codes "app") (codes "Group") auth) nothing)))
      (codes "user")
    ≡ []
unfolding visit method_call var_info info_of_call extract_middlewares add_info build_middleware_map
    get put ident_name
group_has_none = refl
