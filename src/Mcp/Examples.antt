-- ===== src/Mcp/Examples.antt =====
-- A server with one tool at work.
use mathlib.Core.Logic.{◌↔◌}
use aqi.Prelude.{
  ℕ, true, false, String, [], ◌∷◌, none, some, comparable_string, ◌≡◌, refl, All, arith,
}
use aqi.Prelude.Int.{pos}
use aqi.Prelude.Dict.{get, put}
use aqi.Mcp.Schema.{
  Json, number, whole, object, field, end_fields, Schema, prop, end_props, object_schema,
  scalar_schema, normalize_schema, validate_input_schema, validate_arguments, check_arguments,
  check_required, check_properties, validate_argument_type, properties, decode_fields,
}
use aqi.Mcp.Schema.Arguments.{validate_arguments_accepts, IsGiven, AreTyped}
use aqi.Mcp.Context.{Content, Run, returned, send, blank, call_tool}
use aqi.Mcp.Context.Results.{call_tool-is_error}
use aqi.Mcp.Server.{
  Tool, Server, RpcRequest, HttpRequest, registered, register_tool, enter_tool, serve_http,
  serve_rpc, dispatch, tools_call, run_tool, authorized,
}
use aqi.Mcp.Server.Registry.{IsWellFormed, register_tool-get, register_tool-IsWellFormed}
use aqi.Mcp.Server.Replies.{
  MayRun, is_accepted, serve_rpc-is_accepted, serve_http-tools, serve_http-MayRun,
}

abbrev add_schema : Schema
add_schema = object_schema (prop "n" (scalar_schema "integer" "a number") end_props) ("n" ∷ [])

abbrev add_tool : Tool
add_tool = record {
  description = "adds";
  input_schema = add_schema;
  read_only = true;
  destructive = false;
  confirm = false;
  hints = record {
    title = "";
    read_only_hint = false;
    destructive_hint = false;
    requires_confirmation = false;
  };
  handler = some 7;
}

abbrev idle : Server
idle = record {
  protocol_version = "2025-11-25";
  name = "aqi";
  version = "0.1.0";
  auth = none;
  initialized = false;
  tools = [];
}

abbrev serving : Server
serving = record idle { tools = ("add", add_tool) ∷ [] }

abbrev five : Json
five = object (field "n" (number (whole (pos 5))) end_fields)

abbrev call_add : HttpRequest
call_add = record {
  verb = "POST";
  authorization = "";
  body = some (record {
    jsonrpc = "2.0";
    id = some (number (whole (pos 1)));
    method = "tools/call";
    params = some (record { name = "add"; arguments = some five });
  });
}

abbrev runs : ℕ → Json → Run
runs f args = returned (send args blank)

abbrev to_text : Content → String
to_text c = "json"

abbrev note : RpcRequest
note = record { jsonrpc = "2.0"; id = none; method = "ping"; params = none }

added : register_tool "add" add_tool idle ≡ registered serving
unfolding register_tool enter_tool validate_input_schema normalize_schema get put
added = refl

idle-IsWellFormed : IsWellFormed idle
unfolding get
idle-IsWellFormed name t e = absurd (ground (arith, e))

register_tool-get_example : (get idle.tools "add" ≡ none) × (get serving.tools "sub" ≡ none)
unfolding get
register_tool-get_example = register_tool-get "add" "sub" add_tool idle serving added

register_tool-IsWellFormed_example : IsWellFormed serving
register_tool-IsWellFormed_example =
    register_tool-IsWellFormed "add" add_tool idle serving idle-IsWellFormed added

validate_arguments_accepts_example : (validate_arguments add_schema five ≡ none) ↔ (
    All (IsGiven (decode_fields (field "n" (number (whole (pos 5))) end_fields) [])) ("n" ∷ [])
    × AreTyped
        (properties add_schema)
        (decode_fields (field "n" (number (whole (pos 5))) end_fields) []))
validate_arguments_accepts_example =
    validate_arguments_accepts add_schema (field "n" (number (whole (pos 5))) end_fields)

call_tool-is_error_example : (call_tool to_text (runs 7 five)).is_error ≡ false
call_tool-is_error_example = call_tool-is_error to_text (runs 7 five)

serve_rpc-is_accepted_example : is_accepted (serve_rpc to_text runs note serving).written ≡ true
serve_rpc-is_accepted_example = serve_rpc-is_accepted to_text runs note serving

serve_http-tools_example :
    ((serve_http to_text runs call_add serving).server.tools ≡ serving.tools)
    × ((serve_http to_text runs call_add serving).server.auth ≡ serving.auth)
serve_http-tools_example = serve_http-tools to_text runs call_add serving

ran_add : (serve_http to_text runs call_add serving).ran ≡ some (7, five)
unfolding serve_http authorized serve_rpc dispatch tools_call run_tool get put validate_arguments
    check_arguments check_required check_properties validate_argument_type
ran_add = refl

serve_http-MayRun_example : MayRun call_add serving 7 five
serve_http-MayRun_example = serve_http-MayRun to_text runs call_add serving 7 five ran_add
