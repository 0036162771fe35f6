-- ===== src/Mcp/Server/Registry.antt =====
-- The tools of a server of mcp/server.go.
use mathlib.Core.Option
use aqi.Prelude.{
  ℕ, Bool, true, false, String, Option, none, some, comparable_string, ◌==◌, ==_iff, ◌≡◌, ◌≢◌, refl,
  ap, sym, subst, ◌∙◌, if◌then◌else◌, arith,
}
use aqi.Prelude.Dict.{get, put, get-put}
use aqi.Mcp.Schema.{Schema, schema_type, normalize_schema, validate_input_schema}
use aqi.Mcp.Server.{
  Tool, Server, Registered, refused, registered, name_required, missing_handler,
  invalid_input_schema, tool_exists, enter_tool, register_tool,
}

abbrev pub normalized : Tool → Tool
normalized t = record t { input_schema = normalize_schema t.input_schema }

-- A tool that a server may hold: it has a handler, and its schema is that of an object.
abbrev pub IsUsable : Tool → Type 0
IsUsable t = ((f : ℕ) × (t.handler ≡ some f)) × (schema_type t.input_schema ≡ "object")

abbrev pub IsWellFormed : Server → Type 0
IsWellFormed s = (name : String) (t : Tool) → get s.tools name ≡ some t → (name ≢ "") × IsUsable t

normalize_schema-twice :
    (s : Schema)
    → schema_type (normalize_schema (normalize_schema s)) ≡ schema_type (normalize_schema s)
unfolding normalize_schema
normalize_schema-twice s = ground arith

abbrev server_or : Server → Registered → Server
server_or s (refused e) = s
server_or s (registered s') = s'

-- What a registration that succeeds says.
register_tool_view :
    (name : String) (t : Tool) (s s' : Server)
    → register_tool name t s ≡ registered s'
    → (name ≢ "")
      × IsUsable (normalized t)
      × (get s.tools name ≡ none)
      × (s' ≡ record s { tools = put s.tools name (normalized t) })
unfolding register_tool enter_tool validate_input_schema
register_tool_view name t s s' e =
    go (name == "") t.handler (validate_input_schema (normalize_schema t.input_schema))
      (get s.tools name) refl refl refl refl e
  where
    go :
        (b : Bool) (o : Option ℕ) (c : Bool) (p : Option Tool)
        → name == "" ≡ b
        → t.handler ≡ o
        → validate_input_schema (normalize_schema t.input_schema) ≡ c
        → get s.tools name ≡ p
        → (if b then refused name_required else elim o [
          | none ↦ refused missing_handler
          | some f ↦
              if c
              then elim p [
                | some old ↦ refused tool_exists
                | none ↦ registered (record s { tools = put s.tools name (normalized t) })
              ]
              else refused invalid_input_schema
        ])
          ≡ registered s'
        → (name ≢ "")
          × IsUsable (normalized t)
          × (get s.tools name ≡ none)
          × (s' ≡ record s { tools = put s.tools name (normalized t) })
    go true o c p eb eo ec ep h = absurd (ground (arith, h))
    go false none c p eb eo ec ep h = absurd (ground (arith, h))
    go false (some f) false p eb eo ec ep h = absurd (ground (arith, h))
    go false (some f) true (some old) eb eo ec ep h = absurd (ground (arith, h))
    go false (some f) true none eb eo ec ep h =
        let law = ==_iff name "" in
        let same : schema_type (normalize_schema (normalize_schema t.input_schema)) ≡ "object" =
          (==_iff (schema_type (normalize_schema (normalize_schema t.input_schema))) "object").0
            ec in
        (
          λ q. absurd (ground (arith, eb, law.1 q)),
          ((f, eo), sym (normalize_schema-twice t.input_schema) ∙ same),
          ep,
          sym (ap (server_or s') h),
        )

-- A registration that succeeds enters a name that was free, with the tool's schema normalized, and
-- keeps every other tool: no tool is ever replaced.
pub register_tool-get :
    (name other : String) (t : Tool) (s s' : Server)
    → register_tool name t s ≡ registered s'
    → (get s.tools name ≡ none)
      × (get s'.tools other ≡ (if name == other then some (normalized t) else get s.tools other))
register_tool-get name other t s s' e =
    let (named, usable, free, made) = register_tool_view name t s s' e in
    (free, ap (λ (x : Server). get x.tools other) made ∙ get-put s.tools name other (normalized t))

-- Registration keeps a server well-formed: each tool has a name, a handler and an object schema.
pub register_tool-IsWellFormed :
    (name : String) (t : Tool) (s s' : Server)
    → IsWellFormed s
    → register_tool name t s ≡ registered s'
    → IsWellFormed s'
register_tool-IsWellFormed name t s s' ok e other u found =
    let (named, usable, free, made) = register_tool_view name t s s' e in
    let all = (register_tool-get name other t s s' e).1 in
    go named usable (name == other) refl (sym all ∙ found)
  where
    go :
        name ≢ ""
        → IsUsable (normalized t)
        → (b : Bool) → name == other ≡ b
        → (if b then some (normalized t) else get s.tools other) ≡ some u
        → (other ≢ "") × IsUsable u
    go named usable true eb h =
        let same : name ≡ other = (==_iff name other).0 eb in
        (subst (λ n. n ≢ "") same named, subst IsUsable (ap (λ o. Option.get_or o u) h) usable)
    go named usable false eb h = ok other u h
