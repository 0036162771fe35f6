-- ===== src/Mcp/Server/Options.antt =====
-- `NewServer` of mcp/server.go, its options, and `Tool`. The app is kept and not read.
use mathlib.Core.List.{foldl}
use aqi.Prelude.{
  Bool, false, String, List, [], Option, none, some, comparable_string, ◌==◌, ==_iff, ◌≢◌,
  if◌then◌else◌, Bool-cases, inl, inr, arith,
}
use aqi.Mcp.Server.{HttpRequest, Server, Tool, Registered, refused, registered, register_tool}

-- An option, or nil.
abbrev pub ServerOption : Type 0
ServerOption = Option (Server → Server)

-- `NewServer` before the options
abbrev pub default_server : Server
default_server = record {
  protocol_version = "2025-11-25";
  name = "aqi";
  version = "0.1.0";
  auth = none;
  initialized = false;
  tools = [];
}

abbrev pub apply_option : Server → ServerOption → Server
apply_option s none = s
apply_option s (some option) = option s

-- `NewServer`
unfoldable pub new_server : List ServerOption → Server
new_server options = foldl apply_option default_server options

-- `WithProtocolVersion`, `WithName`, `WithVersion` and `WithAuth`
abbrev pub with_protocol_version : String → Server → Server
with_protocol_version version s =
    if version == "" then s else record s { protocol_version = version }

abbrev pub with_name : String → Server → Server
with_name name s = if name == "" then s else record s { name = name }

abbrev pub with_version : String → Server → Server
with_version version s = if version == "" then s else record s { version = version }

abbrev pub with_auth : Option (HttpRequest → Bool) → Server → Server
with_auth fn s = record s { auth = fn }

-- `Tool`; `none` is its panic.
abbrev pub entered : Registered → Option Server
entered (refused e) = none
entered (registered s) = some s

unfoldable pub tool : String → Tool → Server → Option Server
tool name t s = entered (register_tool name t s)

-- An option keeps a server named.
with_name_named : (name : String) (s : Server) → s.name ≢ "" → (with_name name s).name ≢ ""
with_name_named name s h = elim (Bool-cases (name == "")) [
  | inl empty ↦ rw (empty, if◌then◌else◌) h
  | inr given ↦
      rw (given, if◌then◌else◌)
        (λ e. absurd (let k = (==_iff name "").1 e in ground (arith, k, given)))
]
