-- ===== src/Ws/Dispatcher.antt =====
-- `Dispatcher` of ws/dispatcher.go and the loop body of `Client.Request` (ws/client.go). What the
-- JSON parser yields is the input, as is what the rate limiter answers; `ops` gives a handler's body.
pub mod Answers
pub mod Routed
mod Examples
use aqi.Prelude.{
  ℕ, Bool, true, false, String, List, [], ◌∷◌, Option, none, some, map, comparable_string,
  comparable_nat, ◌==◌, if◌then◌else◌,
}
use aqi.Prelude.Int.{ℤ, pos, negsuc}
use aqi.Ws.Types.{Action, Client, Hub, Now, Payload, User, nil, number, set_client}
use aqi.Ws.Client.{send_msg, log}
use aqi.Ws.Chain.{Handler, Outcome, run_chain}
use aqi.Ws.Router.{Routing, handlers}

pub record Request : Type 0 where
  pub id : String
  pub action : String
  pub params : String

-- What `Dispatcher` did: it answered itself, or it ran the handlers, with this outcome.
pub data Dispatched : Type 0 where
  answered : Dispatched
  ran : Outcome → Dispatched

-- `IsBanned` of `User`, with the time of the ban.
unfoldable pub is_banned : User → Option ℕ
is_banned u = elim u.ban [ none ↦ none | some t ↦ if t == 0 then none else some t ]

-- The ban of a client's user.
unfoldable pub client_ban : ℕ → Hub → Option ℕ
client_ban c h = elim (h.clients c).user [ none ↦ none | some u ↦ is_banned (h.user_at u) ]

abbrev pub pong : Action
pong = record { code = pos 0; action = "ping"; id = ""; msg = "pong"; content = nil }

abbrev pub ban_notice : ℕ → Action
ban_notice t = record {
  code = negsuc 1000;
  action = "sys.ban";
  id = "";
  msg = "";
  content = number t;
}

abbrev pub not_supported : String → Action
not_supported action = record {
  code = negsuc 1004;
  action = action;
  id = "";
  msg = "request not supported";
  content = nil;
}

abbrev pub rate_limited : Action
rate_limited = record {
  code = negsuc 1002;
  action = "sys.rateLimit";
  id = "";
  msg = "too many requests, please retry later";
  content = nil;
}

-- The times that a request sets.
unfoldable pub touch : ℕ → Client → Client
touch t cl = record cl {
  last_request_time = t;
  last_heartbeat_time = if cl.last_heartbeat_time == 0 then t else cl.last_heartbeat_time;
}

-- The end of `Dispatcher`, on the handlers of the action.
pub run_handlers : (ℕ → Handler) → ℕ → String → ℕ → List ℕ → Hub → Hub × Dispatched
run_handlers ops f action c [] h = (send_msg c (not_supported action) h, answered)
run_handlers ops f action c (x ∷ xs) h = (h, ran (run_chain f (map ops (x ∷ xs))))

-- `Dispatcher`
unfoldable pub dispatch : (ℕ → Handler) → ℕ → Now → Routing → Request → ℕ → Hub → Hub × Dispatched
unfolding run_handlers
dispatch ops f now w req c h =
    let cl = h.clients c in
    if req.action == "ping"
    then (send_msg c pong (set_client c (record cl { last_heartbeat_time = now.time }) h), answered)
    else elim (client_ban c h) [
      | some t ↦ (send_msg c (ban_notice t) h, answered)
      | none ↦
          run_handlers ops f req.action c (handlers req.action w)
            (set_client c (touch now.time cl) h)
    ]

-- The body of the loop of `Request`
unfoldable pub request :
    Bool → (ℕ → Handler) → ℕ → Now → Routing → Request → ℕ → Hub → Hub × Dispatched
request allowed ops f now w req c h = if allowed then dispatch ops f now w req c h else (
  send_msg c rate_limited (log now c "!!" "Too many requests, please retry later" h),
  answered,
)
