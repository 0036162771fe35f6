-- ===== src/Ws/PubSub.antt =====
-- ws/pubsub.go and ws/pubsub_topic.go, with the topic methods of ws/user.go.
pub mod Subscriptions
pub mod Delivery
mod Examples
use mathlib.Core.List.{foldl}
use aqi.Prelude.{
  ℕ, zero, suc, ◌+◌, String, List, [], ◌∷◌, ◌++◌, Option, none, some, comparable_string, length,
  if◌then◌else◌,
}
use aqi.Prelude.Int.{pos}
use aqi.Prelude.Dict.{Dict, get, put, remove}
use aqi.Ws.Types.{Action, Hub, Now, Payload, Topic, TopicMsg, User, message, set_user, update}
use aqi.Ws.Client.{send_msg}

abbrev pub new_topic : Topic
new_topic = record { sub_users = []; sub_handlers = [] }

abbrev pub topic_or_new : Option Topic → Topic
topic_or_new none = new_topic
topic_or_new (some t) = t

abbrev pub set_topic : String → Topic → Hub → Hub
set_topic id t h = record h { topics = put h.topics id t }

-- `initTopic`; the topic that it returns is `topic_or_new (get h.topics id)`.
unfoldable pub init_topic : String → Hub → Hub
init_topic id h = elim (get h.topics id) [ none ↦ set_topic id new_topic h | some t ↦ h ]

unfoldable pub pub_msg : String → Payload → TopicMsg
pub_msg id content = record {
  ori = content;
  topic_id = id;
  msg = record { code = pos 0; action = id; id = ""; msg = ""; content = message id content };
}

-- `Pub`
unfoldable pub publish : String → Payload → Hub → Hub
publish id content h =
    let h' = init_topic id h in record h' { queue = h'.queue ++ pub_msg id content ∷ [] }

-- `sync.Map.LoadOrStore`
unfoldable pub load_or_store {ℓ} : {V : Type ℓ} → Dict String V → String → V → Dict String V
load_or_store d k v = elim (get d k) [ none ↦ put d k v | some _ ↦ d ]

-- `User.AddSubTopic`
unfoldable pub add_sub_topic : String → User → User
add_sub_topic id user = record user { sub_topics = put user.sub_topics id id }

-- `Topic.AddSubUser`, on the topic with this id
unfoldable pub add_sub_user : Now → String → ℕ → Hub → Hub
unfolding load_or_store add_sub_topic
add_sub_user now id u h =
    let user = h.user_at u in
    let topic = topic_or_new (get h.topics id) in
    set_topic id (record topic { sub_users = load_or_store topic.sub_users user.suid now.time })
      (set_user u (add_sub_topic id user) h)

-- `Sub`
unfoldable pub subscribe : Now → String → ℕ → Hub → Hub
subscribe now id u h = add_sub_user now id u (init_topic id h)

-- `SubFunc`, with `Topic.AddSubHandle`: the key is the topic's own id
unfoldable pub sub_func : String → ℕ → Hub → Hub
sub_func id f h =
    let h' = init_topic id h in
    let topic = topic_or_new (get h'.topics id) in
    set_topic id (record topic { sub_handlers = load_or_store topic.sub_handlers id f }) h'

-- `Topic.RemoveSubUser`, on a topic that exists
unfoldable pub remove_sub_user : String → String → Hub → Hub
remove_sub_user id suid h = elim (get h.topics id) [
  | none ↦ h
  | some topic ↦ set_topic id (record topic { sub_users = remove topic.sub_users suid }) h
]

-- `User.UnsubTopic`
unfoldable pub unsub_topic : String → ℕ → Hub → Hub
unsub_topic id u h =
    let user = h.user_at u in
    elim (get user.sub_topics id) [
      | none ↦ h
      | some topic ↦
          set_user u (record user { sub_topics = remove user.sub_topics id })
            (remove_sub_user topic user.suid h)
    ]

-- `Unsub`
unfoldable pub unsubscribe : String → ℕ → Hub → Hub
unsubscribe id u h = elim (get h.topics id) [
  | none ↦ h
  | some topic ↦ unsub_topic id u (remove_sub_user id (h.user_at u).suid h)
]

-- The loop of `User.UnsubAllTopics` over the topics left.
unfoldable pub unsub_loop : Dict String String → ℕ → Hub → Hub
unsub_loop [] u h = h
unsub_loop ((id, topic) ∷ rest) u h =
    let h' = remove_sub_user topic (h.user_at u).suid h in
    let user = h'.user_at u in
    unsub_loop rest u (set_user u (record user { sub_topics = remove user.sub_topics id }) h')

unfoldable pub unsub_all_topics : ℕ → Hub → Hub
unsub_all_topics u h = unsub_loop (h.user_at u).sub_topics u h

-- `User.SendMsg`
unfoldable pub user_send_msg : ℕ → Action → Hub → Hub
user_send_msg u msg h = foldl (λ h' c. send_msg c msg h') h (h.user_at u).app_clients

-- `Topic.SendToSubUser`: the users are looked up in the hub by the ids of the subscriptions.
unfoldable pub send_to_sub_user : Dict String ℕ → Action → Hub → Hub
send_to_sub_user [] msg h = h
send_to_sub_user ((suid, since) ∷ rest) msg h =
    send_to_sub_user rest msg
      (elim (get h.users suid) [ none ↦ h | some u ↦ user_send_msg u msg h ])

-- `Topic.ApplyFunc`: the calls are recorded.
unfoldable pub apply_func : Dict String ℕ → TopicMsg → Hub → Hub
apply_func [] msg h = h
apply_func ((key, f) ∷ rest) msg h =
    apply_func rest msg (record h { calls = h.calls ++ (f, msg) ∷ [] })

unfoldable pub deliver_msg : TopicMsg → Hub → Hub
deliver_msg msg h = elim (get h.topics msg.topic_id) [
  | none ↦ h
  | some t ↦ send_to_sub_user t.sub_users msg.msg (apply_func t.sub_handlers msg h)
]

-- One round of the loop of `Start`.
unfoldable pub deliver : Hub → Hub
deliver h = elim h.queue [ [] ↦ h | msg ∷ rest ↦ deliver_msg msg (record h { queue = rest }) ]
