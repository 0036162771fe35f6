-- ===== src/Ws/Sending.antt =====
-- ws/context_send.go: the methods of `Context` that answer, on the hub and the languages.
pub mod Replies
mod Examples
use aqi.Prelude.{
  ℕ, Bool, true, false, not, ◌&&◌, String, List, [], ◌∷◌, Option, none, some, ◌==◌,
  comparable_string, if◌then◌else◌,
}
use aqi.Prelude.Int.{ℤ, pos}
use aqi.Prelude.Dict.{get}
use aqi.Ws.Types.{Action, Hub, Payload, nil}
use aqi.Ws.Client.{send_msg}
use aqi.Ws.PubSub.{user_send_msg}
use aqi.Ws.Session.{broadcast, send_msg_to_app}
use aqi.Ws.Languages.{Languages, i18n_set, i18n_load}

-- The fields of `Context` that the methods use; `client` is a pointer.
pub record Context : Type 0 where
  pub id : String
  pub action : String
  pub client : ℕ
  pub response : Option Action
  pub is_dev : Bool
  pub language : String
  pub default_lng : String

-- `New`, `WithId`, `WithCode`, `WithMsg` and `WithData`
abbrev pub new : String → Action
new action = record { code = pos 0; action = action; id = ""; msg = ""; content = nil }

abbrev pub with_id : String → Action → Action
with_id id m = record {
  code = m.code;
  action = m.action;
  id = id;
  msg = m.msg;
  content = m.content;
}

abbrev pub with_code : ℤ → Action → Action
with_code code m = record {
  code = code;
  action = m.action;
  id = m.id;
  msg = m.msg;
  content = m.content;
}

abbrev pub with_msg : String → Action → Action
with_msg msg m = record {
  code = m.code;
  action = m.action;
  id = m.id;
  msg = msg;
  content = m.content;
}

abbrev pub with_data : Payload → Action → Action
with_data data_ m = record {
  code = m.code;
  action = m.action;
  id = m.id;
  msg = m.msg;
  content = data_;
}

abbrev pub respond : Action → Context → Context
respond m c = record {
  id = c.id;
  action = c.action;
  client = c.client;
  response = some m;
  is_dev = c.is_dev;
  language = c.language;
  default_lng = c.default_lng;
}

-- `SendAction`, in which most of the others end
unfoldable pub send_action : Action → Context → Hub → Context × Hub
send_action m c h = (respond m c, send_msg c.client m h)

-- `Send`, `SendOk` and `SendMsg`
unfoldable pub send : Payload → Context → Hub → Context × Hub
send content c h = send_action (with_data content (with_id c.id (new c.action))) c h

unfoldable pub send_ok : Context → Hub → Context × Hub
send_ok c h = send_action (with_id c.id (new c.action)) c h

unfoldable pub send_text : String → Context → Hub → Context × Hub
send_text msg c h = send_action (with_msg msg (with_id c.id (new c.action))) c h

-- `SendActionData` and `SendActionMsg`
unfoldable pub send_action_data : String → Payload → Context → Hub → Context × Hub
send_action_data action content c h = send_action (with_data content (new action)) c h

unfoldable pub send_action_msg : String → String → Context → Hub → Context × Hub
send_action_msg action msg c h = send_action (with_msg msg (new action)) c h

abbrev pub send_to_user : Option ℕ → Action → Hub → Hub
send_to_user none m h = h
send_to_user (some u) m h = user_send_msg u m h

-- `SendTo` and `SendRawTo`
unfoldable pub send_raw_to : String → Action → Context → Hub → Context × Hub
send_raw_to uid m c h = (respond m c, send_to_user (get h.users uid) m h)

unfoldable pub send_to : String → String → Payload → Context → Hub → Context × Hub
send_to uid action content c h = send_raw_to uid (with_data content (new action)) c h

-- `SendToApp`
unfoldable pub send_to_app : String → Action → Context → Hub → Context × Hub
send_to_app app m c h =
    (respond m c, elim (h.clients c.client).user [ none ↦ h | some u ↦ send_msg_to_app u app m h ])

-- `SendToApps`
unfoldable pub send_to_apps : Action → Context → Hub → Context × Hub
send_to_apps m c h = (
  respond m c,
  elim (h.clients c.client).user [ none ↦ send_msg c.client m h | some u ↦ user_send_msg u m h ],
)

-- `Broadcast`
unfoldable pub send_broadcast : Action → Context → Hub → Context × Hub
send_broadcast m c h = (respond m c, broadcast m h)

module _ (key : String → ℤ → String → String) where
  -- In development the default language learns the text.
  unfoldable pub learn : ℤ → String → Context → Languages → Option Languages
  learn code msg c l =
      if c.is_dev && c.language == c.default_lng
      then i18n_set key c.language c.action code msg l
      else some l

  -- The text in the language of the context.
  unfoldable pub translate : ℤ → String → Context → Languages → Option (String × Languages)
  translate code msg c l =
      if not (c.language == c.default_lng)
      then elim (i18n_load key c.language c.action code msg l) [
        | none ↦ none
        | some (text, l') ↦ some ((if text == "" then msg else text), l')
      ]
      else some (msg, l)

  abbrev pub send_translated :
      ℤ → Context → Hub → Option (String × Languages) → Option ((Context × Hub) × Languages)
  send_translated code c h none = none
  send_translated code c h (some (text, l)) =
      some (send_action (with_msg text (with_code code (with_id c.id (new c.action)))) c h, l)

  abbrev pub send_learned :
      ℤ → String → Context → Hub → Option Languages → Option ((Context × Hub) × Languages)
  send_learned code msg c h none = none
  send_learned code msg c h (some l) = send_translated code c h (translate code msg c l)

  -- `SendCode`; none where a language cannot be loaded and the nil pointer panics.
  unfoldable pub send_code :
      ℤ → String → Context → Hub → Languages → Option ((Context × Hub) × Languages)
  send_code code msg c h l = send_learned code msg c h (learn code msg c l)
