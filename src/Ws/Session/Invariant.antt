-- ===== src/Ws/Session/Invariant.antt =====
-- What holds of the sessions of ws/hubc.go and ws/user.go between two events.
use aqi.Prelude.{
  ℕ, ◌≤◌, ◌<◌, ◌≡◌, ◌≢◌, true, false, String, List, [], some, comparable_string, comparable_nat,
  contains, HasNoRepeats,
}
use aqi.Prelude.Dict.{get}
use aqi.Ws.Types.{Hub}
use aqi.Ws.Session.Clients.{ids}

-- The clients that a user lists.
abbrev pub listed : Hub → ℕ → List ℕ
listed h u = (h.user_at u).app_clients

-- A listed client is logged in as the user that lists it and is open; a user lists at most one
-- client for each app id; the hub stores users under their own ids, and lists nothing for a user
-- that it has not created.
pub record IsConsistent (h : Hub) : Type 0 where
  pub logged_in :
      (u c : ℕ)
      → contains c (listed h u) ≡ true
      → ((h.clients c).user ≡ some u)
        × ((h.clients c).is_login ≡ true)
        × ((h.clients c).closed ≡ false)
  pub one_per_app : (u : ℕ) → HasNoRepeats (ids h.clients (listed h u))
  pub stored :
      (uid : String) (u : ℕ)
      → get h.users uid ≡ some u
      → ((h.user_at u).suid ≡ uid) × (u < h.next_user)
  pub uncreated : (u : ℕ) → h.next_user ≤ u → listed h u ≡ []

-- A client whose connection no listed client has: that of a new connection, or one that has left.
pub record IsNew (h : Hub) (c : ℕ) : Type 0 where
  pub still_open : (h.clients c).closed ≡ false
  pub unlisted : (u : ℕ) → contains c (listed h u) ≡ false
  pub own_conn :
      (u a : ℕ) → contains a (listed h u) ≡ true → (h.clients a).conn ≢ (h.clients c).conn
