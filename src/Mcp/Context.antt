-- ===== src/Mcp/Context.antt =====
-- The response of a tool: `Context` of mcp/context.go with its Send methods, and the result that
-- mcp/server.go makes of it. `to_text` is `cast.ToString` of the module spf13/cast.
pub mod Results
use aqi.Prelude.{
  Bool, true, false, String, List, [], ◌∷◌, Option, none, some, comparable_string, ◌==◌,
  if◌then◌else◌, not,
}
use aqi.Prelude.Int.{ℤ, pos, negsuc, comparable_int, int_beq}
use aqi.Mcp.Schema.{Json, null, text}

-- `response`; `payload` is its field `data`.
pub record Response : Type 0 where
  pub code : ℤ
  pub msg : String
  pub payload : Json
  pub err : Option String
  pub is_set : Bool

-- Values of the field `StructuredContent`: a JSON value, or the exported `Response`.
pub data Content : Type 0 where
  value : Json → Content
  reply : ℤ → String → Json → Content

abbrev pub blank : Response
blank = record { code = pos 0; msg = ""; payload = null; err = none; is_set = false }

-- `Send`, `SendOk`, `SendMsg`, `SendCode` and `Error`; each replaces the whole response.
abbrev pub send : Json → Response → Response
send d r = record blank { payload = d; is_set = true }

abbrev pub send_ok : Response → Response
send_ok r = record blank { is_set = true }

abbrev pub send_msg : String → Response → Response
send_msg m r = record blank { msg = m; is_set = true }

abbrev pub send_code : ℤ → String → Response → Response
send_code c m r = record blank { code = c; msg = m; is_set = true }

abbrev pub error : Option String → Response → Response
error none r = r
error (some e) r = record blank { err = some e; is_set = true }

-- `responseData`: data, message, and whether it is an error
unfoldable pub response_data : Response → Content × (String × Bool)
response_data r =
    if r.is_set
    then elim r.err [
      | some e ↦ (value null, (e, true))
      | none ↦
          if not (int_beq r.code (pos 0))
          then (reply r.code r.msg r.payload, (r.msg, true))
          else if not (r.msg == "")
          then (reply (pos 0) r.msg r.payload, (r.msg, false))
          else (value r.payload, ("", false))
    ]
    else (value null, ("", false))

abbrev pub summary : (Content → String) → Content → String
summary to_text (value null) = "ok"
summary to_text (value (text s n)) = s
summary to_text c = to_text c

-- `textSummary`
unfoldable pub text_summary : (Content → String) → Content → String → String
text_summary to_text c fallback = if not (fallback == "") then fallback else summary to_text c

-- `toolResult`, with the text of its one content block
pub record ToolResult : Type 0 where
  pub content : String
  pub structured_content : Content
  pub is_error : Bool

-- How a call ends first: the context expires, the handler panics, or it returns.
pub data Run : Type 0 where
  expired : String → Run
  panicked : String → Run
  returned : Response → Run

-- `errorToolResult`, on an error's text
abbrev pub error_tool_result : String → ToolResult
error_tool_result e = record { content = e; structured_content = value null; is_error = true }

-- The select of `callTool`
unfoldable pub call_tool : (Content → String) → Run → ToolResult
call_tool to_text (expired e) = error_tool_result e
call_tool to_text (panicked e) = error_tool_result e
call_tool to_text (returned r) =
    let (c, (m, b)) = response_data r in
    record { content = text_summary to_text c m; structured_content = c; is_error = b }
