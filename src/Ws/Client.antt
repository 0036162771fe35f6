-- ===== src/Ws/Client.antt =====
-- Methods of `Client` in ws/client.go and ws/client_keyval.go.
use Prim.Native.String.{◌++◌ as str_append}
use mathlib.Core.Option
use aqi.Prelude.{
  ℕ, true, false, String, [], ◌∷◌, ◌++◌, none, some, comparable_string, if◌then◌else◌,
}
use aqi.Prelude.Dict.{get, put}
use aqi.Ws.RecentLogs.{push}
use aqi.Ws.Types.{Action, Client, Hub, Now, Payload, nil, set_client}

infixl 66 ◌+s◌
abbrev pub ◌+s◌ : String → String → String
s +s t = str_append s t

-- The text of `Log`. `IsLogin` is set only together with `User`.
unfoldable pub log_text : Hub → Client → String → String → String
log_text h cl symbol s =
    let suid : String = elim cl.user [ none ↦ "" | some u ↦ (h.user_at u).suid ] in
    if cl.is_login
    then cl.ip_address_port +s " " +s symbol +s " [" +s suid +s "-" +s cl.app_id +s "] " +s s
    else cl.ip_address_port +s " " +s symbol +s " " +s s

-- `Log`; the line goes to the logger too, which keeps no state here.
unfoldable pub log : Now → ℕ → String → String → Hub → Hub
unfolding log_text push
log now c symbol s h =
    let cl = h.clients c in
    set_client c
      (record cl { recent = push (now.stamp +s " " +s log_text h cl symbol s) cl.recent }) h

-- `SendMsg`: a send on a closed channel panics, and the deferred function asks for the disconnect.
unfoldable pub send_msg : ℕ → Action → Hub → Hub
send_msg c msg h =
    let cl = h.clients c in
    if cl.send_closed
    then record h { disconnect = h.disconnect ++ c ∷ [] }
    else set_client c (record cl { send = cl.send ++ msg ∷ [] }) h

-- `Close`
unfoldable pub close : Now → ℕ → Hub → Hub
close now c h =
    let cl = h.clients c in
    if cl.closed
    then h
    else log now c "xx" ("Close client -> " +s cl.ip_address_port)
        (set_client c (record cl { closed = true; send_closed = true; conn_open = false }) h)

-- `SetKey` and `GetKey`
unfoldable pub set_key : String → Payload → Client → Client
set_key key value cl = record cl { keys = put cl.keys key value }

unfoldable pub get_key : String → Client → Payload
get_key key cl = Option.get_or (get cl.keys key) nil
