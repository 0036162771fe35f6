-- ===== src/Mcp/Server/Replies.antt =====
-- What `serveHTTP` of mcp/server.go answers, and which requests run a handler.
use aqi.Prelude.{
  ℕ, Bool, true, false, not, ◌&&◌, ◌||◌, String, Option, none, some, comparable_string, ◌==◌,
  ==_iff, ◌≡◌, refl, if◌then◌else◌, arith,
}
use aqi.Prelude.Dict.{get}
use aqi.Mcp.Schema.{Json, validate_arguments}
use aqi.Mcp.Context.{Content, Run}
use aqi.Mcp.Server.{
  Tool, CallParams, RpcRequest, HttpRequest, Server, Written, Served, http_error, accepted, rpc,
  invalid_request, is_none, arguments_or_empty, dispatch, serve_rpc, authorized, serve_http,
  parse_error,
}
use aqi.Mcp.Server.Calls.{
  dispatch-notification, dispatch-ran, dispatch-tools, run_tool-ran, tools_call-ran,
}

abbrev pub is_accepted : Written → Bool
is_accepted (accepted n) = true
is_accepted w = false

-- The conditions under which a handler runs, on these arguments.
pub record MayRun (r : HttpRequest) (s : Server) (f : ℕ) (args : Json) : Type 0 where
  pub request : RpcRequest
  pub params : CallParams
  pub tool : Tool
  pub posted : r.verb ≡ "POST"
  pub allowed : authorized r s ≡ true
  pub decoded : r.body ≡ some request
  pub asked : request.method ≡ "tools/call"
  pub has_params : request.params ≡ some params
  pub found : get s.tools params.name ≡ some tool
  pub handles : tool.handler ≡ some f
  pub given : arguments_or_empty params.arguments ≡ args
  pub valid : validate_arguments tool.input_schema args ≡ none

module _ (to_text : Content → String) (runs : ℕ → Json → Run) where
  -- `serve_rpc` from its test, and from whether the request is a notification.
  abbrev choose_rpc : RpcRequest → Server → Bool → Bool → Served
  choose_rpc req s b c =
      let d = dispatch to_text runs req s in
      if b
      then record { written = rpc req.id invalid_request; server = s; ran = none }
      else record {
        written = if c then accepted 202 else rpc req.id d.result;
        server = d.server;
        ran = d.ran;
      }

  -- A request that decodes is answered without a body exactly if it is a valid JSON-RPC request and
  -- either has no id or is `notifications/initialized`.
  pub serve_rpc-is_accepted :
      (req : RpcRequest) (s : Server)
      → is_accepted (serve_rpc to_text runs req s).written ≡ (
          not (not (req.jsonrpc == "2.0") || req.method == "")
          && (is_none req.id || req.method == "notifications/initialized"))
  unfolding serve_rpc
  serve_rpc-is_accepted req s =
      go (not (req.jsonrpc == "2.0") || req.method == "") (dispatch to_text runs req s).notification
        (dispatch-notification to_text runs req s)
    where
      go :
          (b c : Bool)
          → c ≡ (is_none req.id || req.method == "notifications/initialized")
          → is_accepted (choose_rpc req s b c).written
            ≡ (not b && (is_none req.id || req.method == "notifications/initialized"))
      go true c e = refl
      go false true e = e
      go false false e = e

  serve_rpc-ran :
      (req : RpcRequest) (s : Server) (x : ℕ × Json)
      → (serve_rpc to_text runs req s).ran ≡ some x
      → (dispatch to_text runs req s).ran ≡ some x
  unfolding serve_rpc
  serve_rpc-ran req s x e =
      go (not (req.jsonrpc == "2.0") || req.method == "") (dispatch to_text runs req s).notification
        e
    where
      go :
          (b c : Bool)
          → (choose_rpc req s b c).ran ≡ some x
          → (dispatch to_text runs req s).ran ≡ some x
      go true c k = absurd (ground (arith, k))
      go false c k = k

  serve_rpc-tools :
      (req : RpcRequest) (s : Server)
      → ((serve_rpc to_text runs req s).server.tools ≡ s.tools)
        × ((serve_rpc to_text runs req s).server.auth ≡ s.auth)
  unfolding serve_rpc
  serve_rpc-tools req s =
      go (not (req.jsonrpc == "2.0") || req.method == "") (dispatch to_text runs req s).notification
    where
      go :
          (b c : Bool)
          → ((choose_rpc req s b c).server.tools ≡ s.tools)
            × ((choose_rpc req s b c).server.auth ≡ s.auth)
      go true c = (refl, refl)
      go false c = dispatch-tools to_text runs req s

  -- `serve_http` from its tests.
  abbrev choose_http : Server → Bool → Bool → Option RpcRequest → Served
  choose_http s a b o =
      if not a
      then record {
        written = http_error 405 "mcp server supports POST only";
        server = s;
        ran = none;
      }
      else if not b
      then record { written = http_error 401 "unauthorized"; server = s; ran = none }
      else elim o [
        | none ↦ record { written = rpc none parse_error; server = s; ran = none }
        | some req ↦ serve_rpc to_text runs req s
      ]

  -- No request changes the tools or the authorization of a server.
  pub serve_http-tools :
      (r : HttpRequest) (s : Server)
      → ((serve_http to_text runs r s).server.tools ≡ s.tools)
        × ((serve_http to_text runs r s).server.auth ≡ s.auth)
  unfolding serve_http
  serve_http-tools r s = go (r.verb == "POST") (authorized r s) r.body
    where
      go :
          (a b : Bool) (o : Option RpcRequest)
          → ((choose_http s a b o).server.tools ≡ s.tools)
            × ((choose_http s a b o).server.auth ≡ s.auth)
      go false b o = (refl, refl)
      go true false o = (refl, refl)
      go true true none = (refl, refl)
      go true true (some req) = serve_rpc-tools req s

  -- A handler runs only for an authorized POST of a tools/call, on a tool that is registered with
  -- this handler, and on arguments that the tool's schema accepts.
  pub serve_http-MayRun :
      (r : HttpRequest) (s : Server) (f : ℕ) (args : Json)
      → (serve_http to_text runs r s).ran ≡ some (f, args)
      → MayRun r s f args
  unfolding serve_http
  serve_http-MayRun r s f args e = go (r.verb == "POST") (authorized r s) r.body refl refl refl e
    where
      go :
          (a b : Bool) (o : Option RpcRequest)
          → r.verb == "POST" ≡ a
          → authorized r s ≡ b
          → r.body ≡ o
          → (choose_http s a b o).ran ≡ some (f, args)
          → MayRun r s f args
      go false b o ea eb eo k = absurd (ground (arith, k))
      go true false o ea eb eo k = absurd (ground (arith, k))
      go true true none ea eb eo k = absurd (ground (arith, k))
      go true true (some req) ea eb eo k =
          let (asked, ran) =
            dispatch-ran to_text runs req s (f, args) (serve_rpc-ran req s (f, args) k) in
          let (p, t, ep, et, ran') = tools_call-ran to_text runs req.params s f args ran in
          let (eh, ea', ev) =
            run_tool-ran to_text runs t args (arguments_or_empty p.arguments) f ran' in
          record {
            request = req;
            params = p;
            tool = t;
            posted = (==_iff r.verb "POST").0 ea;
            allowed = eb;
            decoded = eo;
            asked = asked;
            has_params = ep;
            found = et;
            handles = eh;
            given = ea';
            valid = ev;
          }
