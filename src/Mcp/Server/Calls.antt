-- ===== src/Mcp/Server/Calls.antt =====
-- How `dispatch` of mcp/server.go answers a request, and when it runs a handler.
use mathlib.Core.Option
use aqi.Prelude.{
  ℕ, Bool, true, false, ◌||◌, String, Option, none, some, comparable_string, ◌==◌, ==_iff, ◌≡◌,
  refl, ap, sym, subst, ◌∙◌, if◌then◌else◌, arith,
}
use aqi.Prelude.Dict.{get}
use aqi.Mcp.Schema.{Json, validate_arguments, ArgumentError}
use aqi.Mcp.Context.{Content, Run, call_tool, error_tool_result}
use aqi.Mcp.Server.{
  Tool, initialize, empty, tool_list, tools_list, method_not_found, CallParams, RpcRequest, Server,
  Result, Dispatched, invalid_params, called, is_none, arguments_or_empty, run_tool, tools_call,
  dispatch, no_detail, argument, nil_handler,
}

-- `dispatch` from its tests of the method.
abbrev choose :
    (Content → String)
    → (ℕ → Json → Run)
    → RpcRequest
    → Server
    → Bool
    → Bool
    → Bool
    → Bool
    → Bool
    → Dispatched
choose to_text runs req s a b c d e =
    let quiet = is_none req.id in
    let call = tools_call to_text runs req.params s in
    if a
    then record {
      result = initialize s.protocol_version s.name s.version;
      notification = quiet;
      server = s;
      ran = none;
    }
    else if b
    then record {
      result = empty;
      notification = true;
      server = record s { initialized = true };
      ran = none;
    }
    else if c
    then record { result = empty; notification = quiet; server = s; ran = none }
    else if d
    then record {
      result = tool_list (tools_list s.tools);
      notification = quiet;
      server = s;
      ran = none;
    }
    else if e
    then record { result = call.0; notification = quiet; server = s; ran = call.1 }
    else record { result = method_not_found; notification = quiet; server = s; ran = none }

module _ (to_text : Content → String) (runs : ℕ → Json → Run) where
  pub dispatch-notification :
      (req : RpcRequest) (s : Server)
      → (dispatch to_text runs req s).notification
        ≡ (is_none req.id || req.method == "notifications/initialized")
  unfolding dispatch
  dispatch-notification req s =
      go (req.method == "initialize") (req.method == "notifications/initialized")
        (req.method == "ping") (req.method == "tools/list") (req.method == "tools/call") refl refl
    where
      go :
          (a b c d e : Bool)
          → req.method == "initialize" ≡ a
          → req.method == "notifications/initialized" ≡ b
          → (choose to_text runs req s a b c d e).notification ≡ (is_none req.id || b)
      go true b c d e ea eb =
          let name : req.method ≡ "initialize" = (==_iff req.method "initialize").0 ea in
          let other : false ≡ b = ap (λ m. m == "notifications/initialized") (sym name) ∙ eb in
          ground (arith, other)
      go false true c d e ea eb = ground arith
      go false false true d e ea eb = ground arith
      go false false false true e ea eb = ground arith
      go false false false false true ea eb = ground arith
      go false false false false false ea eb = ground arith

  pub dispatch-ran :
      (req : RpcRequest) (s : Server) (x : ℕ × Json)
      → (dispatch to_text runs req s).ran ≡ some x
      → (req.method ≡ "tools/call") × ((tools_call to_text runs req.params s).1 ≡ some x)
  unfolding dispatch
  dispatch-ran req s x h =
      go (req.method == "initialize") (req.method == "notifications/initialized")
        (req.method == "ping") (req.method == "tools/list") (req.method == "tools/call") refl h
    where
      go :
          (a b c d e : Bool)
          → req.method == "tools/call" ≡ e
          → (choose to_text runs req s a b c d e).ran ≡ some x
          → (req.method ≡ "tools/call") × ((tools_call to_text runs req.params s).1 ≡ some x)
      go true b c d e ee k = absurd (ground (arith, k))
      go false true c d e ee k = absurd (ground (arith, k))
      go false false true d e ee k = absurd (ground (arith, k))
      go false false false true e ee k = absurd (ground (arith, k))
      go false false false false true ee k = ((==_iff req.method "tools/call").0 ee, k)
      go false false false false false ee k = absurd (ground (arith, k))

  pub dispatch-tools :
      (req : RpcRequest) (s : Server)
      → ((dispatch to_text runs req s).server.tools ≡ s.tools)
        × ((dispatch to_text runs req s).server.auth ≡ s.auth)
  unfolding dispatch
  dispatch-tools req s =
      go (req.method == "initialize") (req.method == "notifications/initialized")
        (req.method == "ping") (req.method == "tools/list") (req.method == "tools/call")
    where
      go :
          (a b c d e : Bool)
          → ((choose to_text runs req s a b c d e).server.tools ≡ s.tools)
            × ((choose to_text runs req s a b c d e).server.auth ≡ s.auth)
      go true b c d e = (refl, refl)
      go false true c d e = (refl, refl)
      go false false true d e = (refl, refl)
      go false false false true e = (refl, refl)
      go false false false false true = (refl, refl)
      go false false false false false = (refl, refl)

  pub run_tool-ran :
      (t : Tool) (args given : Json) (f : ℕ)
      → (run_tool to_text runs t given).1 ≡ some (f, args)
      → (t.handler ≡ some f) × (given ≡ args) × (validate_arguments t.input_schema args ≡ none)
  unfolding run_tool
  run_tool-ran t args given f e = go (validate_arguments t.input_schema given) t.handler refl refl e
    where
      go :
          (o : Option ArgumentError) (h : Option ℕ)
          → validate_arguments t.input_schema given ≡ o
          → t.handler ≡ h
          → ◌≡◌ {A = Option (ℕ × Json)}
              ((elim o as (λ x. Result × Option (ℕ × Json)) [
                | some e ↦ (invalid_params "invalid arguments" (argument e), none)
                | none ↦ elim h [
                  | none ↦ (called (error_tool_result nil_handler), none)
                  | some g ↦ (called (call_tool to_text (runs g given)), some (g, given))
                ]
              ]).1)
              (some (f, args))
          → (t.handler ≡ some f) × (given ≡ args) × (validate_arguments t.input_schema args ≡ none)
      go (some x) h eo eh k = absurd (ground (arith, k))
      go none none eo eh k = absurd (ground (arith, k))
      go none (some g) eo eh k =
          let same : (g, given) ≡ (f, args) = ap (λ p. Option.get_or p (f, args)) k in
          let arg : given ≡ args = ap (λ p. p.1) same in
          (
            eh ∙ ap (λ p. some p.0) same,
            arg,
            subst (λ v. validate_arguments t.input_schema v ≡ none) arg eo,
          )

  pub tools_call-ran :
      (params : Option CallParams) (s : Server) (f : ℕ) (args : Json)
      → (tools_call to_text runs params s).1 ≡ some (f, args)
      → (p : CallParams) × (t : Tool) × (params ≡ some p)
        × (get s.tools p.name ≡ some t)
        × ((run_tool to_text runs t (arguments_or_empty p.arguments)).1 ≡ some (f, args))
  unfolding tools_call
  tools_call-ran none s f args e = absurd (ground (arith, e))
  tools_call-ran (some p) s f args e = go (p.name == "") (get s.tools p.name) refl e
    where
      go :
          (b : Bool) (o : Option Tool)
          → get s.tools p.name ≡ o
          → ◌≡◌ {A = Option (ℕ × Json)}
              ((if b
                then (invalid_params "tool name is required" no_detail, none)
                else elim o as (λ x. Result × Option (ℕ × Json)) [
                  | none ↦ (invalid_params "mcp tool not found" no_detail, none)
                  | some t ↦ run_tool to_text runs t (arguments_or_empty p.arguments)
                ]).1)
              (some (f, args))
          → (q : CallParams) × (t : Tool) × (some p ≡ some q)
            × (get s.tools q.name ≡ some t)
            × ((run_tool to_text runs t (arguments_or_empty q.arguments)).1 ≡ some (f, args))
      go true o eo k = absurd (ground (arith, k))
      go false none eo k = absurd (ground (arith, k))
      go false (some t) eo k = (p, t, refl, eo, k)
