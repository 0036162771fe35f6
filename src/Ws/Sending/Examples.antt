-- ===== src/Ws/Sending/Examples.antt =====
-- An answer in another language (ws/context_send.go, ws/context_lang.go).
use aqi.Prelude.{true, false, String, [], ◌∷◌, none, some, ◌≡◌, refl, comparable_string}
use aqi.Prelude.Int.{ℤ, pos}
use aqi.Prelude.Dict.{get}
use aqi.Ws.RecentLogs.{none_yet}
use aqi.Ws.Types.{Client, Hub, new_user}
use aqi.Ws.Client.{◌+s◌}
use aqi.Ws.Languages.{Languages, texts, language_init}
use aqi.Ws.Sending.{Context, new, with_id, with_code, with_msg, send_action, send_code}
use aqi.Ws.Sending.Replies.{send_code-language_init}

-- A key of the action alone
abbrev key : String → ℤ → String → String
key action code msg = action +s "." +s msg

abbrev guest : Client
guest = record {
  conn = 1;
  conn_open = true;
  send = [];
  send_closed = false;
  closed = false;
  user = none;
  app_id = "web";
  is_login = false;
  ip_address_port = "10.0.0.1:80";
  last_request_time = 0;
  last_heartbeat_time = 0;
  keys = [];
  recent = none_yet;
}

abbrev hub : Hub
hub = record {
  guests = 1 ∷ [];
  users = [];
  login_count = 0;
  guest_count = 1;
  topics = [];
  queue = [];
  disconnect = [];
  clients = λ c. guest;
  user_at = λ u. new_user "";
  next_user = 0;
  calls = [];
}

abbrev languages : Languages
languages = record {
  loaded = [];
  files = λ lang. texts (("login.no", "nein") ∷ ("order.no", "nicht") ∷ []);
  writable = true;
}

-- A request for `order` behind one for `login`
abbrev context : Context
context = record {
  id = "7";
  action = "order";
  client = 1;
  response = none;
  is_dev = false;
  language = "de";
  default_lng = "zh";
}

-- The text is the one for `login`.
send_code-language_init_example :
    send_code key (pos 9) "no" context hub (language_init "de" "login" languages).1
    ≡ some (
      send_action (with_msg "nein" (with_code (pos 9) (with_id "7" (new "order")))) context hub,
      (language_init "de" "login" languages).1,
    )
unfolding get
send_code-language_init_example =
    send_code-language_init key (pos 9) "no" "login" context hub languages
      (("login.no", "nein") ∷ ("order.no", "nicht") ∷ []) refl refl refl
