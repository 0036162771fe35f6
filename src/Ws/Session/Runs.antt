-- ===== src/Ws/Session/Runs.antt =====
-- Runs of the hub of ws/hubc.go: its goroutines take turns, and each turn is one handler.
use aqi.Prelude.{ℕ, sym, ◌∙◌, String}
use aqi.Ws.Types.{Action, Hub, Now, Payload}
use aqi.Ws.Client.{send_msg}
use aqi.Ws.PubSub.{publish, deliver}
use aqi.Ws.Session.{connect, disconnect, user_login, guard}
use aqi.Ws.Session.Invariant.{IsConsistent, IsNew}
use aqi.Ws.Session.UserLogin.{user_login-IsConsistent, user_login-conn}
use aqi.Ws.Session.Keeps.{OwnConns}
use aqi.Ws.Session.Leaving.{disconnect-IsConsistent, disconnect-conn}
use aqi.Ws.Session.Guards.{connect-SameSessions, guard-SameSessions}
use aqi.Ws.Session.Frame.{
  SameSessions-IsConsistent, SameSessions-OwnConns, deliver-SameSessions, send_msg-SameSessions,
  publish-SameSessions,
}

-- One turn: a connection or a disconnect that `Run` receives, a login by a new connection, a tick of
-- `guard`, a round of `PubSub.Start`, a message to a client, or a publication.
pub data Turn : Hub → Hub → Type 0 where
  connects : (now : Now) (c : ℕ) (h : Hub) → Turn h (connect now c h)
  leaves : (now : Now) (c : ℕ) (h : Hub) → Turn h (disconnect now c h)
  logs_in : (uid app : String) (c : ℕ) (h : Hub) → IsNew h c → Turn h (user_login uid app c h)
  guards : (now : Now) (h : Hub) → Turn h (guard now h)
  delivers : (h : Hub) → Turn h (deliver h)
  sends : (c : ℕ) (msg : Action) (h : Hub) → Turn h (send_msg c msg h)
  publishes : (id : String) (p : Payload) (h : Hub) → Turn h (publish id p h)

pub data Run (h : Hub) : Hub → Type 0 where
  start : Run h h
  turn : {h1 h2 : Hub} → Run h h1 → Turn h1 h2 → Run h h2

abbrev pub IsSound : Hub → Type 0
IsSound h = IsConsistent h × OwnConns h

Turn-IsSound : {h1 h2 : Hub} → Turn h1 h2 → IsSound h1 → IsSound h2
Turn-IsSound (connects now c h) (v, own) =
    let s = connect-SameSessions now c h in
    (SameSessions-IsConsistent h _ s v, SameSessions-OwnConns h _ s own)
Turn-IsSound (leaves now c h) (v, own) = (
  disconnect-IsConsistent now c h v own,
  λ a b e. own a b (sym (disconnect-conn now c h a) ∙ e ∙ disconnect-conn now c h b),
)
Turn-IsSound (logs_in uid app c h new) (v, own) = (
  user_login-IsConsistent uid app c h v new,
  λ a b e.
      own a b (sym (user_login-conn uid app c h v new a) ∙ e ∙ user_login-conn uid app c h v new b),
)
Turn-IsSound (guards now h) (v, own) =
    let s = guard-SameSessions now h in
    (SameSessions-IsConsistent h _ s v, SameSessions-OwnConns h _ s own)
Turn-IsSound (delivers h) (v, own) =
    let s = deliver-SameSessions h in
    (SameSessions-IsConsistent h _ s v, SameSessions-OwnConns h _ s own)
Turn-IsSound (sends c msg h) (v, own) =
    let s = send_msg-SameSessions c msg h in
    (SameSessions-IsConsistent h _ s v, SameSessions-OwnConns h _ s own)
Turn-IsSound (publishes id p h) (v, own) =
    let s = publish-SameSessions id p h in
    (SameSessions-IsConsistent h _ s v, SameSessions-OwnConns h _ s own)

-- Whatever turns the hub takes from a sound state, in whatever order, its sessions stay sound, where
-- each login is of an open client whose connection no listed client has.
pub Run-IsSound : {h h' : Hub} → IsSound h → Run h h' → IsSound h'
Run-IsSound s start = s
Run-IsSound s (turn r t) = Turn-IsSound t (Run-IsSound s r)
