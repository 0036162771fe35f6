-- ===== src/Mcp/Server.antt =====
-- The server of mcp/server.go: registering tools, and answering a request. A request's body is
-- given as the JSON decoder leaves it. A handler is a number, and `runs` says how a call ends.
pub mod Registry
pub mod Options
pub mod Calls
pub mod Replies
use aqi.Prelude.{
  ℕ, Bool, true, false, not, ◌||◌, String, List, [], ◌∷◌, Option, none, some, comparable_string,
  ◌==◌, if◌then◌else◌,
}
use aqi.Prelude.Int.{ℤ, pos, negsuc}
use aqi.Prelude.Dict.{Dict, get, put}
use aqi.Mcp.Schema.{
  Json, null, object, end_fields, Schema, ArgumentError, normalize_schema, validate_input_schema,
  validate_arguments,
}
use aqi.Mcp.Context.{Content, ToolResult, Run, call_tool, error_tool_result}

-- `ToolAnnotations`
pub record Annotations : Type 0 where
  pub title : String
  pub read_only_hint : Bool
  pub destructive_hint : Bool
  pub requires_confirmation : Bool

-- `Tool` with its `ToolPolicy`; the timeout is part of how a call ends.
pub record Tool : Type 0 where
  pub description : String
  pub input_schema : Schema
  pub read_only : Bool
  pub destructive : Bool
  pub confirm : Bool
  pub hints : Annotations
  pub handler : Option ℕ

-- The parameters of tools/call.
pub record CallParams : Type 0 where
  pub name : String
  pub arguments : Option Json

-- `rpcRequest`; `params` is `none` where they do not decode into the parameters of tools/call.
pub record RpcRequest : Type 0 where
  pub jsonrpc : String
  pub id : Option Json
  pub method : String
  pub params : Option CallParams

pub record HttpRequest : Type 0 where
  pub verb : String
  pub authorization : String
  pub body : Option RpcRequest

pub record Server : Type 0 where
  pub protocol_version : String
  pub name : String
  pub version : String
  pub auth : Option (HttpRequest → Bool)
  pub initialized : Bool
  pub tools : Dict String Tool

pub data RegisterError : Type 0 where
  name_required : RegisterError
  missing_handler : RegisterError
  invalid_input_schema : RegisterError
  tool_exists : RegisterError

pub data Registered : Type 0 where
  refused : RegisterError → Registered
  registered : Server → Registered

-- `registerTool`, where the schema is already normalized
unfoldable pub enter_tool : String → Tool → Server → Registered
enter_tool name tool s =
    if validate_input_schema tool.input_schema
    then elim (get s.tools name) [
      | some old ↦ refused tool_exists
      | none ↦ registered (record s { tools = put s.tools name tool })
    ]
    else refused invalid_input_schema

-- `registerTool`
unfoldable pub register_tool : String → Tool → Server → Registered
register_tool name tool s = if name == "" then refused name_required else elim tool.handler [
  | none ↦ refused missing_handler
  | some f ↦ enter_tool name (record tool { input_schema = normalize_schema tool.input_schema }) s
]

-- `annotations`
unfoldable pub annotations : Tool → Annotations
annotations t = record t.hints {
  read_only_hint = t.hints.read_only_hint || t.read_only;
  destructive_hint = t.hints.destructive_hint || t.destructive;
  requires_confirmation = t.hints.requires_confirmation || t.confirm;
}

pub record ToolInfo : Type 0 where
  pub name : String
  pub description : String
  pub input_schema : Schema
  pub hints : Annotations

-- `toolsList`
unfoldable pub tools_list : Dict String Tool → List ToolInfo
tools_list [] = []
tools_list ((name, t) ∷ rest) =
    record {
      name = name;
      description = t.description;
      input_schema = t.input_schema;
      hints = annotations t;
    }
    ∷ tools_list rest

pub data Detail : Type 0 where
  no_detail : Detail
  decoder : Detail
  argument : ArgumentError → Detail

-- `rpcError`
pub record RpcError : Type 0 where
  pub code : ℤ
  pub message : String
  pub detail : Detail

pub data Result : Type 0 where
  initialize : String → String → String → Result
  empty : Result
  tool_list : List ToolInfo → Result
  called : ToolResult → Result
  failed : RpcError → Result

-- What `dispatch` returns, with the server after it, and the handler that ran with its arguments.
pub record Dispatched : Type 0 where
  pub result : Result
  pub notification : Bool
  pub server : Server
  pub ran : Option (ℕ × Json)

abbrev pub invalid_params : String → Detail → Result
invalid_params m d = failed (record { code = negsuc 32601; message = m; detail = d })

-- The arguments, `{}` where there are none.
abbrev pub arguments_or_empty : Option Json → Json
arguments_or_empty none = object end_fields
arguments_or_empty (some null) = object end_fields
arguments_or_empty (some v) = v

-- The recovered panic of a call of a nil handler.
abbrev pub nil_handler : String
nil_handler = "mcp tool panic: runtime error: invalid memory address or nil pointer dereference"

abbrev pub method_not_found : Result
method_not_found =
    failed (record { code = negsuc 32600; message = "method not found"; detail = no_detail })

abbrev pub is_none {ℓ} : {A : Type ℓ} → Option A → Bool
is_none none = true
is_none (some a) = false

-- Whether `serveHTTP` lets a request in.
unfoldable pub authorized : HttpRequest → Server → Bool
authorized r s = elim s.auth [ none ↦ true | some auth ↦ auth r ]

-- What `serveHTTP` writes: a plain error with its status, a bare status, or a JSON-RPC response.
pub data Written : Type 0 where
  http_error : ℕ → String → Written
  accepted : ℕ → Written
  rpc : Option Json → Result → Written

pub record Served : Type 0 where
  pub written : Written
  pub server : Server
  pub ran : Option (ℕ × Json)

abbrev pub parse_error : Result
parse_error = failed (record { code = negsuc 32699; message = "parse error"; detail = decoder })

abbrev pub invalid_request : Result
invalid_request =
    failed (record { code = negsuc 32599; message = "invalid request"; detail = no_detail })

module _ (to_text : Content → String) (runs : ℕ → Json → Run) where
  -- The end of `toolsCall`: a tool that is registered, and arguments.
  unfoldable pub run_tool : Tool → Json → Result × Option (ℕ × Json)
  run_tool t args = elim (validate_arguments t.input_schema args) [
    | some e ↦ (invalid_params "invalid arguments" (argument e), none)
    | none ↦ elim t.handler [
      | none ↦ (called (error_tool_result nil_handler), none)
      | some f ↦ (called (call_tool to_text (runs f args)), some (f, args))
    ]
  ]

  -- `toolsCall`
  unfoldable pub tools_call : Option CallParams → Server → Result × Option (ℕ × Json)
  tools_call none s = (invalid_params "invalid params" decoder, none)
  tools_call (some p) s =
      if p.name == ""
      then (invalid_params "tool name is required" no_detail, none)
      else elim (get s.tools p.name) [
        | none ↦ (invalid_params "mcp tool not found" no_detail, none)
        | some t ↦ run_tool t (arguments_or_empty p.arguments)
      ]

  -- `dispatch`
  unfoldable pub dispatch : RpcRequest → Server → Dispatched
  dispatch req s =
      let quiet = is_none req.id in
      let call = tools_call req.params s in
      if req.method == "initialize"
      then record {
        result = initialize s.protocol_version s.name s.version;
        notification = quiet;
        server = s;
        ran = none;
      }
      else if req.method == "notifications/initialized"
      then record {
        result = empty;
        notification = true;
        server = record s { initialized = true };
        ran = none;
      }
      else if req.method == "ping"
      then record { result = empty; notification = quiet; server = s; ran = none }
      else if req.method == "tools/list"
      then record {
        result = tool_list (tools_list s.tools);
        notification = quiet;
        server = s;
        ran = none;
      }
      else if req.method == "tools/call"
      then record { result = call.0; notification = quiet; server = s; ran = call.1 }
      else record { result = method_not_found; notification = quiet; server = s; ran = none }

  -- The end of `serveHTTP`, on a request that decodes
  unfoldable pub serve_rpc : RpcRequest → Server → Served
  serve_rpc req s =
      let d = dispatch req s in
      if not (req.jsonrpc == "2.0") || req.method == ""
      then record { written = rpc req.id invalid_request; server = s; ran = none }
      else record {
        written = if d.notification then accepted 202 else rpc req.id d.result;
        server = d.server;
        ran = d.ran;
      }

  -- `serveHTTP`
  unfoldable pub serve_http : HttpRequest → Server → Served
  serve_http r s =
      if not (r.verb == "POST")
      then record {
        written = http_error 405 "mcp server supports POST only";
        server = s;
        ran = none;
      }
      else if not (authorized r s)
      then record { written = http_error 401 "unauthorized"; server = s; ran = none }
      else elim r.body [
        | none ↦ record { written = rpc none parse_error; server = s; ran = none }
        | some req ↦ serve_rpc req s
      ]
