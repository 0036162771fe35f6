-- ===== src/Ws/Session/Examples.antt =====
-- Runs of the sessions of ws/ on small hubs.
use aqi.Prelude.{
  ℕ, ◌≡◌, refl, true, false, [], ◌∷◌, none, some, contains, comparable_nat, comparable_string,
}
use aqi.Prelude.Dict.{get, put}
use aqi.Ws.RecentLogs.{none_yet}
use aqi.Ws.Types.{Client, Hub, Now, new_user}
use aqi.Ws.PubSub.{publish, init_topic, pub_msg}
use aqi.Ws.Session.{
  app_login, enter, find_app, user_login, user_or_new, user_client, app_client, remove_from_guests,
  disconnect,
}
use aqi.Ws.Session.Invariant.{IsConsistent, IsNew, listed}
use aqi.Ws.Session.UserLogin.{user_login-IsConsistent, user_client-user_login, guests-user_login}
use aqi.Ws.Session.Logout.{disconnect_listed}
use aqi.Ws.Session.Keeps.{OwnConns}
use aqi.Ws.Session.Leaving.{disconnect-IsConsistent}
use aqi.Ws.Session.Runs.{Run, Turn, IsSound, Run-IsSound}

-- Client `c` of a fresh connection; its connection has the same number.
abbrev fresh : ℕ → Client
fresh c = record {
  conn = c;
  conn_open = true;
  send = [];
  send_closed = false;
  closed = false;
  user = none;
  app_id = "";
  is_login = false;
  ip_address_port = "";
  last_request_time = 0;
  last_heartbeat_time = 0;
  keys = [];
  recent = none_yet;
}

abbrev empty_hub : Hub
empty_hub = record {
  guests = [];
  users = [];
  login_count = 0;
  guest_count = 0;
  topics = [];
  queue = [];
  disconnect = [];
  clients = fresh;
  user_at = λ u. new_user "";
  next_user = 0;
  calls = [];
}

abbrev noon : Now
noon = record { time = 43200; stamp = "12:00" }

empty-IsConsistent : IsConsistent empty_hub
unfolding get
empty-IsConsistent = record {
  logged_in = λ u c m. absurd (cc m);
  one_per_app = λ u. tt;
  stored = λ uid u e. absurd (cc e);
  uncreated = λ u le. refl;
}

empty-IsNew : (c : ℕ) → IsNew empty_hub c
empty-IsNew c = record {
  still_open = refl;
  unlisted = λ u. refl;
  own_conn = λ u a m. absurd (cc m);
}

empty-OwnConns : OwnConns empty_hub
empty-OwnConns a b e = e

user_login-IsConsistent_example : IsConsistent (user_login "ann" "web" 1 empty_hub)
user_login-IsConsistent_example =
    user_login-IsConsistent "ann" "web" 1 empty_hub empty-IsConsistent (empty-IsNew 1)

user_client-user_login_example :
    user_client (user_login "ann" "web" 1 empty_hub) "ann" "web" ≡ some 1
user_client-user_login_example =
    user_client-user_login "ann" "web" 1 empty_hub empty-IsConsistent (empty-IsNew 1)

guests-user_login_example :
    contains 1 (user_login "ann" "web" 1 (record empty_hub { guests = 1 ∷ 2 ∷ [] })).guests ≡ false
guests-user_login_example =
    guests-user_login "ann" "web" 1 (record empty_hub { guests = 1 ∷ 2 ∷ [] }) (refl, (refl, tt))

abbrev ann_in : Hub
ann_in = user_login "ann" "web" 1 empty_hub

ann_in_facts :
    (get ann_in.users "ann" ≡ some 0)
    × (app_client ann_in 0 "web" ≡ some 1)
    × ((ann_in.clients 1).user ≡ some 0)
    × (listed ann_in 0 ≡ 1 ∷ [])
unfolding user_login user_or_new app_login enter find_app publish init_topic pub_msg get put
    app_client remove_from_guests
ann_in_facts = (refl, refl, refl, refl)

two_conns : OwnConns ann_in
two_conns =
    (Run-IsSound (empty-IsConsistent, empty-OwnConns)
      (Run.turn Run.start (Turn.logs_in "ann" "web" 1 empty_hub (empty-IsNew 1)))).1

disconnect_listed_example :
    (((disconnect noon 1 ann_in).clients 1).closed ≡ true)
    × (contains 1 (listed (disconnect noon 1 ann_in) 0) ≡ false)
disconnect_listed_example =
    disconnect_listed noon 1 0 ann_in ann_in_facts.2 (λ a e. two_conns a 1 e)
      (rw ann_in_facts.3 (refl, tt)) (rw ann_in_facts.3 refl)

disconnect-IsConsistent_example : IsConsistent (disconnect noon 1 ann_in)
disconnect-IsConsistent_example =
    disconnect-IsConsistent noon 1 ann_in user_login-IsConsistent_example two_conns

Run-IsSound_example : IsSound (disconnect noon 1 ann_in)
Run-IsSound_example =
    Run-IsSound (empty-IsConsistent, empty-OwnConns)
      (Run.turn (Run.turn Run.start (Turn.logs_in "ann" "web" 1 empty_hub (empty-IsNew 1)))
        (Turn.leaves noon 1 ann_in))
