-- ===== src/Ws/Types.antt =====
-- The data of ws/: client.go, user.go, pubsub.go, pubsub_topic.go, w_response.go and hubc.go.
-- Pointers to clients and users are numbers into the heaps `clients` and `user_at` of the state; a
-- topic is never replaced, so its pointer is its id. A message stands before its JSON encoding.
use aqi.Prelude.{ℕ, Bool, String, List, [], Option, none, nat_beq, if◌then◌else◌}
use aqi.Prelude.Int.{ℤ}
use aqi.Prelude.Dict.{Dict}
use aqi.Ws.RecentLogs.{Recent}

-- What a message carries: the values of type `any` that the package itself passes.
pub data Payload : Type 0 where
  nil : Payload
  text : String → Payload
  number : ℕ → Payload
  client : ℕ → Payload
  user : ℕ → Payload
  suid : String → Payload
  message : String → Payload → Payload

-- `Action` of w_response.go
pub record Action : Type 0 where
  pub code : ℤ
  pub action : String
  pub id : String
  pub msg : String
  pub content : Payload

-- The fields of `Client` that the hub and the dispatcher use. A time is in nanoseconds, 0 for the
-- zero time.
pub record Client : Type 0 where
  pub conn : ℕ
  pub conn_open : Bool
  pub send : List Action
  pub send_closed : Bool
  pub closed : Bool
  pub user : Option ℕ
  pub app_id : String
  pub is_login : Bool
  pub ip_address_port : String
  pub last_request_time : ℕ
  pub last_heartbeat_time : ℕ
  pub keys : Dict String Payload
  pub recent : Recent

-- The fields of `User` that the hub and the dispatcher use.
pub record User : Type 0 where
  pub suid : String
  pub app_clients : List ℕ
  pub sub_topics : Dict String String
  pub last_heartbeat_time : ℕ
  pub ban : Option ℕ

-- `SubUsers` with the times of subscription, and `SubHandlers`; a handler is a number.
pub record Topic : Type 0 where
  pub sub_users : Dict String ℕ
  pub sub_handlers : Dict String ℕ

pub record TopicMsg : Type 0 where
  pub ori : Payload
  pub topic_id : String
  pub msg : Action

-- `Hubc` with its `PubSub`, and the heaps. `disconnect` lists the clients that wait to be received
-- on the unbuffered channel `Disconnect`, and `queue` what was sent to `TopicMsgQueue`, a sender
-- that waits for room counted in. `calls` is the trace of the handlers that were called.
pub record Hub : Type 0 where
  pub guests : List ℕ
  pub users : Dict String ℕ
  pub login_count : ℕ
  pub guest_count : ℕ
  pub topics : Dict String Topic
  pub queue : List TopicMsg
  pub disconnect : List ℕ
  pub clients : ℕ → Client
  pub user_at : ℕ → User
  pub next_user : ℕ
  pub calls : List (ℕ × TopicMsg)

-- The clock: `time.Now()`, and the same in RFC 3339.
pub record Now : Type 0 where
  pub time : ℕ
  pub stamp : String

abbrev pub update {ℓ} : {A : Type ℓ} → (ℕ → A) → ℕ → A → ℕ → A
update f p v q = if nat_beq p q then v else f q

abbrev pub set_client : ℕ → Client → Hub → Hub
set_client c v h = record h { clients = update h.clients c v }

abbrev pub set_user : ℕ → User → Hub → Hub
set_user u v h = record h { user_at = update h.user_at u v }

-- `NewUser`
abbrev pub new_user : String → User
new_user uid = record {
  suid = uid;
  app_clients = [];
  sub_topics = [];
  last_heartbeat_time = 0;
  ban = none;
}
