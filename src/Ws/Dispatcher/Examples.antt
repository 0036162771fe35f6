-- ===== src/Ws/Dispatcher/Examples.antt =====
-- Requests at work.
use aqi.Prelude.{
  ℕ, ◌≡◌, ◌≢◌, refl, true, false, [], ◌∷◌, none, comparable_string, comparable_nat, nat_beq,
  if◌then◌else◌, arith,
}
use aqi.Prelude.Dict.{get}
use aqi.Ws.RecentLogs.{none_yet}
use aqi.Ws.Types.{Client, Hub, Now, new_user}
use aqi.Ws.Chain.{act, next, Handler}
use aqi.Ws.Router.{Routers, Routing}
use aqi.Ws.Dispatcher.{Request, dispatch, client_ban}
use aqi.Ws.Dispatcher.Answers.{dispatch-did_run, dispatch_heartbeat, dispatch_others, did_run}

abbrev guest : Client
guest = record {
  conn = 1;
  conn_open = true;
  send = [];
  send_closed = false;
  closed = false;
  user = none;
  app_id = "";
  is_login = false;
  ip_address_port = "10.0.0.1:80";
  last_request_time = 0;
  last_heartbeat_time = 0;
  keys = [];
  recent = none_yet;
}

abbrev hub : Hub
hub = record {
  guests = 1 ∷ [];
  users = [];
  login_count = 0;
  guest_count = 1;
  topics = [];
  queue = [];
  disconnect = [];
  clients = λ c. guest;
  user_at = λ u. new_user "";
  next_user = 0;
  calls = [];
}

abbrev no_routes : Routing
no_routes = record {
  handler_map = [];
  handler_arrays = record { cells = λ a. []; next = 0 };
  group_arrays = record { cells = λ a. []; next = 0 };
}

abbrev one_route : Routing
one_route = record no_routes { handler_map = ("hello", 1 ∷ 2 ∷ []) ∷ [] }

-- Handler 1 calls `Next` between its two effects.
abbrev bodies : ℕ → Handler
bodies n = if nat_beq n 1 then act 10 ∷ next ∷ act 11 ∷ [] else act n ∷ []

abbrev hello : Request
hello = record { id = "1"; action = "hello"; params = "{}" }

abbrev noon : Now
noon = record { time = 43; stamp = "12:00" }

dispatch-did_run_example : did_run (dispatch bodies 20 noon one_route hello 1 hub).1 ≡ true
unfolding aqi.Ws.Router.handlers client_ban get
dispatch-did_run_example = dispatch-did_run bodies 20 noon one_route hello 1 hub

dispatch_heartbeat_example :
    ((dispatch bodies 20 noon one_route hello 1 hub).0.clients 1).last_heartbeat_time ≢ 0
unfolding client_ban
dispatch_heartbeat_example =
    dispatch_heartbeat bodies 20 noon one_route hello 1 hub (λ e. omega (arith, e)) refl

dispatch_others_example :
    (let h' = (dispatch bodies 20 noon one_route hello 1 hub).0 in
      (h'.clients 2 ≡ hub.clients 2) × (h'.user_at ≡ hub.user_at) × (h'.topics ≡ hub.topics))
dispatch_others_example =
    dispatch_others bodies 20 noon one_route hello 1 hub 2 (λ e. omega (arith, e))
