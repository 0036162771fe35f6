-- ===== src/Ws/Session.antt =====
-- Login and logout: ws/hubc.go, and the client list of ws/user.go.
pub mod Clients
pub mod Invariant
pub mod Login
pub mod Entered
pub mod UserLogin
pub mod Displaced
pub mod Keeps
pub mod Leaving
pub mod Frame
pub mod Guards
pub mod Runs
pub mod Logout
mod Examples
use mathlib.Core.List.{foldl}
use aqi.Prelude.{
  ℕ, zero, suc, ◌+◌, ◌-◌, ◌*◌, ◌^◌, Bool, true, false, ◌&&◌, String, List, [], ◌∷◌, ◌++◌, Option,
  none, some, comparable_string, comparable_nat, ◌==◌, leb, length, if◌then◌else◌,
}
use aqi.Prelude.Dict.{Dict, get, put, remove}
use aqi.Ws.Types.{
  Action, Client, Hub, Now, Payload, User, client, user, suid, number, new_user, set_client,
  set_user, update,
}
use aqi.Ws.Client.{send_msg, log, close}
use aqi.Ws.PubSub.{publish, unsub_all_topics, user_send_msg}

-- `slices.Delete(s, index, index+1)`
abbrev pub delete_at {ℓ} : {A : Type ℓ} → ℕ → List A → List A
delete_at i [] = []
delete_at zero (x ∷ xs) = xs
delete_at (suc i) (x ∷ xs) = x ∷ delete_at i xs

-- The first client of the list with the app id, and its index.
unfoldable pub find_app : (ℕ → Client) → String → List ℕ → ℕ → Option (ℕ × ℕ)
find_app heap app [] i = none
find_app heap app (c ∷ cs) i =
    let rest = find_app heap app cs (i + 1) in if (heap c).app_id == app then some (i, c) else rest

-- The loop of `appLogout`: the first client with the app id and the connection.
unfoldable pub find_conn : (ℕ → Client) → String → ℕ → List ℕ → ℕ → Option ℕ
find_conn heap app conn [] i = none
find_conn heap app conn (c ∷ cs) i =
    let rest = find_conn heap app conn cs (i + 1) in
    if (heap c).app_id == app && conn == (heap c).conn then some i else rest

-- `User.AppClient`
unfoldable pub app_client : Hub → ℕ → String → Option ℕ
unfolding find_app
app_client h u app = elim (find_app h.clients app (h.user_at u).app_clients 0) [
  | none ↦ none
  | some (i, c) ↦ some c
]

abbrev pub set_app_clients : ℕ → List ℕ → Hub → Hub
set_app_clients u cs h = set_user u (record (h.user_at u) { app_clients = cs }) h

-- The branches of `appLogin`, once the client is marked as logged in.
pub enter : ℕ → ℕ → Option (ℕ × ℕ) → Hub → Hub
enter u c none h = set_app_clients u ((h.user_at u).app_clients ++ c ∷ []) h
enter u c (some (index, old)) h =
    if (h.clients old).conn == (h.clients c).conn
    then h
    else let h' = set_app_clients u (delete_at index (h.user_at u).app_clients ++ c ∷ []) h in
      record h' { disconnect = h'.disconnect ++ old ∷ [] }

abbrev pub logged : ℕ → String → Client → Client
logged u app cl = record cl { user = some u; app_id = app; is_login = true }

-- `appLogin`
unfoldable pub app_login : ℕ → String → ℕ → Hub → Hub
unfolding enter
app_login u app c h =
    let found = find_app h.clients app (h.user_at u).app_clients 0 in
    publish "login" (user u) (enter u c found (set_client c (logged u app (h.clients c)) h))

-- The removal in `appLogout`, where its loop has found the client.
pub drop_client : Now → ℕ → ℕ → Option ℕ → Hub → Hub
drop_client now u c none h = h
drop_client now u c (some index) h =
    close now c (set_app_clients u (delete_at index (h.user_at u).app_clients) h)

-- `appLogout`
unfoldable pub app_logout : Now → ℕ → String → ℕ → Hub → Hub
unfolding drop_client
app_logout now u app c h =
    let found = find_conn h.clients app (h.clients c).conn (h.user_at u).app_clients 0 in
    publish "logout" (user u) (drop_client now u c found h)

-- `Hubc.User` and `Hubc.UserClient`
unfoldable pub user_client : Hub → String → String → Option ℕ
unfolding app_client
user_client h uid app = elim (get h.users uid) [ none ↦ none | some u ↦ app_client h u app ]

-- `removeFromGuests`: the first occurrence goes.
unfoldable pub remove_first : ℕ → List ℕ → List ℕ
remove_first c [] = []
remove_first c (g ∷ gs) = let rest = remove_first c gs in if g == c then gs else g ∷ rest

unfoldable pub remove_from_guests : ℕ → Hub → Hub
unfolding remove_first
remove_from_guests c h = record h { guests = remove_first c h.guests }

-- The user of `UserLogin`: a new one where the hub has none.
unfoldable pub user_or_new : String → Hub → ℕ × Hub
user_or_new uid h = elim (get h.users uid) [
  | some u ↦ (u, h)
  | none ↦
      (h.next_user, set_user h.next_user (new_user uid) (record h { next_user = h.next_user + 1 }))
]

-- `UserLogin`
unfoldable pub user_login : String → String → ℕ → Hub → Hub
user_login uid app c h =
    let (u, h1) = user_or_new uid h in
    let h2 = app_login u app c h1 in remove_from_guests c (record h2 { users = put h2.users uid u })

-- `Run`, on a client received from `Connection`
unfoldable pub connect : Now → ℕ → Hub → Hub
connect now c h =
    log now c "--" "connection"
      (publish "connect" (client c) (record h { guests = h.guests ++ c ∷ [] }))

-- The branches on the client's user, for a client received from `Disconnect`.
pub leave : Now → ℕ → Option ℕ → Hub → Hub
leave now c none h = remove_from_guests c (close now c h)
leave now c (some u) h = app_logout now u (h.clients c).app_id c h

-- `Run`, on a client received from `Disconnect`
unfoldable pub disconnect : Now → ℕ → Hub → Hub
unfolding leave
disconnect now c h =
    let h1 = publish "disconnect" (client c) h in leave now c (h1.clients c).user h1

-- `Broadcast`
abbrev pub broadcast_users : Dict String ℕ → Action → Hub → Hub
broadcast_users [] msg h = h
broadcast_users ((uid, u) ∷ rest) msg h = broadcast_users rest msg (user_send_msg u msg h)

unfoldable pub broadcast : Action → Hub → Hub
broadcast msg h =
    let h1 = foldl (λ h' g. send_msg g msg h') h h.guests in broadcast_users h1.users msg h1

-- `SendMsgToApp`
unfoldable pub send_msg_to_app : ℕ → String → Action → Hub → Hub
send_msg_to_app u app msg h = elim (app_client h u app) [ none ↦ h | some c ↦ send_msg c msg h ]

-- `cleanupTTL`, five minutes in nanoseconds
abbrev pub cleanup_ttl : ℕ
cleanup_ttl = 5 * 60 * 10 ^ 9

-- The function that `guard` ranges with over the users, and the count of users with a client.
unfoldable pub guard_user : Now → String → ℕ → ℕ → Hub → ℕ × Hub
guard_user now key u count h =
    let us = h.user_at u in
    if length us.app_clients == 0
    then (
      count,
      if leb cleanup_ttl (now.time - us.last_heartbeat_time)
          then (let h1 = unsub_all_topics u h in
              publish "cleanupUser" (suid us.suid) (record h1 { users = remove h1.users key }))
          else h,
    )
    else (count + 1, h)

unfoldable pub guard_users : Now → Dict String ℕ → ℕ → Hub → ℕ × Hub
guard_users now [] count h = (count, h)
guard_users now ((key, u) ∷ rest) count h =
    let (count', h') = guard_user now key u count h in guard_users now rest count' h'

-- One tick of `guard`, where no guard function is set.
unfoldable pub guard : Now → Hub → Hub
guard now h =
    let guests = length h.guests in
    let (count, h1) = guard_users now h.users 0 h in
    publish "guestsCount" (number guests)
      (publish "userCount" (number count) (record h1 { login_count = count; guest_count = guests }))
