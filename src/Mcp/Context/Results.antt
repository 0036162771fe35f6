-- ===== src/Mcp/Context/Results.antt =====
-- Which results of a tool are errors: `responseData` and `callTool` of mcp/.
use aqi.Prelude.{
  Bool, true, false, not, ◌&&◌, ◌||◌, String, Option, none, some, comparable_string, ◌==◌, ◌≡◌,
  refl, if◌then◌else◌,
}
use aqi.Prelude.Int.{pos, comparable_int, int_beq}
use aqi.Mcp.Schema.{null}
use aqi.Mcp.Context.{
  Content, Run, expired, panicked, returned, value, reply, response_data, call_tool,
}

abbrev pub is_some {ℓ} : {A : Type ℓ} → Option A → Bool
is_some none = false
is_some (some a) = true

-- When a run of a tool counts as failed: it expired or panicked, or the tool's last answer was an
-- error or a code other than 0.
abbrev pub has_failed : Run → Bool
has_failed (expired e) = true
has_failed (panicked e) = true
has_failed (returned r) = r.is_set && (is_some r.err || not (int_beq r.code (pos 0)))

-- A result is marked as an error exactly if the run failed; a tool that returns without an answer
-- succeeds.
pub call_tool-is_error :
    (to_text : Content → String) (run : Run) → (call_tool to_text run).is_error ≡ has_failed run
unfolding call_tool response_data
call_tool-is_error to_text (expired e) = refl
call_tool-is_error to_text (panicked e) = refl
call_tool-is_error to_text (returned r) = go r.is_set r.err (int_beq r.code (pos 0)) (r.msg == "")
  where
    go :
        (a : Bool) (o : Option String) (b c : Bool)
        → (let d : Content × (String × Bool) =
              if a
              then elim o [
                | some e ↦ (value null, (e, true))
                | none ↦
                    if not b
                    then (reply r.code r.msg r.payload, (r.msg, true))
                    else if not c
                    then (reply (pos 0) r.msg r.payload, (r.msg, false))
                    else (value r.payload, ("", false))
              ]
              else (value null, ("", false)) in
            d.1.1)
          ≡ (a && (is_some o || not b))
    go false o b c = refl
    go true (some e) b c = refl
    go true none false c = refl
    go true none true false = refl
    go true none true true = refl
