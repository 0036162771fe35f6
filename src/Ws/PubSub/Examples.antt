-- ===== src/Ws/PubSub/Examples.antt =====
-- Topics at work on a hub with one user, whose client is number 1.
use aqi.Prelude.{
  ℕ, ◌≡◌, refl, inr, true, false, ◌&&◌, String, [], ◌∷◌, none, some, nat_beq, comparable_nat,
  comparable_string, ◌==◌, if◌then◌else◌,
}
use aqi.Prelude.Dict.{get}
use aqi.Ws.RecentLogs.{none_yet}
use aqi.Ws.Types.{Client, Hub, Now, Topic, User, text, new_user}
use aqi.Ws.PubSub.{subscribe, unsubscribe, sub_func, topic_or_new, pub_msg, deliver, user_send_msg}
use aqi.Ws.PubSub.Subscriptions.{
  since, own_topic, or_now, subscribe_both, unsubscribe_both, sub_func_first_only,
}
use aqi.Ws.PubSub.Delivery.{Received, user_send_msg-Received, deliver-Received}

abbrev online : Client
online = record {
  conn = 1;
  conn_open = true;
  send = [];
  send_closed = false;
  closed = false;
  user = some 0;
  app_id = "web";
  is_login = true;
  ip_address_port = "10.0.0.1:80";
  last_request_time = 0;
  last_heartbeat_time = 0;
  keys = [];
  recent = none_yet;
}

abbrev ann : User
ann = record (new_user "ann") { app_clients = 1 ∷ []; sub_topics = ("news", "news") ∷ [] }

abbrev news : Topic
news = record { sub_users = ("ann", 42) ∷ []; sub_handlers = ("news", 5) ∷ [] }

abbrev hub : Hub
hub = record {
  guests = [];
  users = ("ann", 0) ∷ [];
  login_count = 1;
  guest_count = 0;
  topics = ("news", news) ∷ [];
  queue = pub_msg "news" (text "hello") ∷ [];
  disconnect = [];
  clients = λ c. online;
  user_at = λ u. ann;
  next_user = 1;
  calls = [];
}

abbrev noon : Now
noon = record { time = 43; stamp = "12:00" }

subscribe_both_example :
    ((j s : String)
      → since (subscribe noon "news" 0 hub) j s ≡ (
          if "news" == j && "ann" == s
          then some (or_now (since hub "news" "ann") 43)
          else since hub j s))
    × ((w : ℕ) (j : String)
        → own_topic (subscribe noon "news" 0 hub) w j
          ≡ (if nat_beq 0 w && "news" == j then some "news" else own_topic hub w j))
subscribe_both_example = subscribe_both noon "news" 0 hub

unsubscribe_both_example :
    ((j s : String)
      → since (unsubscribe "news" 0 hub) j s
        ≡ (if "news" == j && "ann" == s then none else since hub j s))
    × ((w : ℕ) (j : String)
        → own_topic (unsubscribe "news" 0 hub) w j
          ≡ (if nat_beq 0 w && "news" == j then none else own_topic hub w j))
unfolding get
unsubscribe_both_example = unsubscribe_both "news" 0 hub news refl (inr refl)

sub_func_first_only_example :
    (topic_or_new (get (sub_func "news" 6 hub).topics "news")).sub_handlers
    ≡ (topic_or_new (get hub.topics "news")).sub_handlers
unfolding get
sub_func_first_only_example = sub_func_first_only "news" 5 6 hub "news" refl

user_send_msg-Received_example :
    Received
      (pub_msg "news" (text "hello")).msg
      1
      (user_send_msg 0 (pub_msg "news" (text "hello")).msg hub)
user_send_msg-Received_example =
    user_send_msg-Received 0 (pub_msg "news" (text "hello")).msg hub 1 refl refl

deliver-Received_example : Received (pub_msg "news" (text "hello")).msg 1 (deliver hub)
unfolding get pub_msg
deliver-Received_example =
    deliver-Received hub (pub_msg "news" (text "hello")) [] news "ann" 42 0 1 refl refl refl refl
      refl refl
