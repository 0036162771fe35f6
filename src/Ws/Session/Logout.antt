-- ===== src/Ws/Session/Logout.antt =====
-- `appLogout` of ws/user.go and the `Disconnect` branch of `Run` in ws/hubc.go.
use aqi.Prelude.{
  ℕ, suc, ◌+◌, ◌≡◌, ◌≢◌, refl, sym, ap, ap₂, ◌∙◌, true, false, String, List, [], ◌∷◌, Option, none,
  some, comparable_string, comparable_nat, nat_beq, ◌==◌, ==_iff, contains, HasNoRepeats, arith,
  Bool-cases, inl, inr,
}
use aqi.Ws.Types.{Client, Hub, Now, User, client, user}
use aqi.Ws.Client.{log, close}
use aqi.Ws.PubSub.{publish}
use aqi.Ws.Session.{
  delete_at, find_conn, drop_client, leave, app_logout, disconnect, set_app_clients,
}
use aqi.Ws.Session.Invariant.{listed}
use aqi.Ws.Session.Login.{publish_frame}

-- The search for a connection that no listed client has.
pub find_conn-none :
    (heap : ℕ → Client) (app : String) (conn : ℕ) (cs : List ℕ) (i : ℕ)
    → ((a : ℕ) → contains a cs ≡ true → (heap a).conn ≢ conn)
    → find_conn heap app conn cs i ≡ none
unfolding find_conn
find_conn-none heap app conn [] i h = refl
find_conn-none heap app conn (c ∷ cs) i h =
    let apart = h c (ground arith) in
    let rest = find_conn-none heap app conn cs (i + 1) (λ a m. h a (ground (arith, m))) in
    let no : nat_beq conn (heap c).conn ≡ false = ground (arith, apart) in ground (arith, rest, no)

-- The search for a listed client that alone has its connection.
pub find_conn-some :
    (heap : ℕ → Client) (c : ℕ) (cs : List ℕ) (i : ℕ)
    → ((a : ℕ) → (heap a).conn ≡ (heap c).conn → a ≡ c)
    → contains c cs ≡ true
    → (k : ℕ) × (find_conn heap (heap c).app_id (heap c).conn cs i ≡ some (i + k))
      × (HasNoRepeats cs → contains c (delete_at k cs) ≡ false)
unfolding find_conn
find_conn-some heap c [] i own m = cc
find_conn-some heap c (d ∷ cs) i own m = elim (Bool-cases (nat_beq c d)) [
  | inl t ↦
      let cd : c ≡ d = ground arith in
      let same : ((heap d).app_id == (heap c).app_id) ≡ true =
        (==_iff (heap d).app_id (heap c).app_id).1 (ap (λ x. (heap x).app_id) (sym cd)) in
      let wire : nat_beq (heap c).conn (heap d).conn ≡ true =
        (==_iff (heap c).conn (heap d).conn).1 (ap (λ x. (heap x).conn) cd) in
      (0, ground (arith, same, wire), λ n. rw (← cd) at n.0)
  | inr f ↦
      let (k, found, gone) = find_conn-some heap c cs (i + 1) own (ground (arith, m, f)) in
      let no : nat_beq (heap c).conn (heap d).conn ≡ false =
        elim (Bool-cases (nat_beq (heap c).conn (heap d).conn)) [
          | inl t ↦
              let e : (heap d).conn ≡ (heap c).conn = ground arith in
              absurd (let dc = own d e in ground (arith, dc, f))
          | inr n ↦ n
        ] in
      (suc k, ground (arith, found, no), λ n. ground (arith, f, gone n.1))
]

close-user_at : (now : Now) (c : ℕ) (h : Hub) → (close now c h).user_at ≡ h.user_at
unfolding close log
close-user_at now c h = ground arith

close_closes : (now : Now) (c : ℕ) (h : Hub) → ((close now c h).clients c).closed ≡ true
unfolding close log
close_closes now c h = ground arith

module _ (now : Now) (c u : ℕ) (h : Hub) (is : (h.clients c).user ≡ some u) where
  abbrev pub told : Hub
  told = publish "disconnect" (client c) h

  pub told_clients : told.clients ≡ h.clients
  told_clients = (publish_frame "disconnect" (client c) h).0

  pub told_listed : listed told u ≡ listed h u
  told_listed = ap (λ f. (f u).app_clients) (publish_frame "disconnect" (client c) h).1

  -- The search that the logout makes.
  abbrev pub search_result : Option ℕ
  search_result = find_conn h.clients (h.clients c).app_id (h.clients c).conn (listed h u) 0

  pub disconnect_lem :
      disconnect now c h ≡ publish "logout" (user u) (drop_client now u c search_result told)
  unfolding disconnect app_logout
  disconnect_lem =
      ap (λ o. leave now c o told) (ap (λ (f : ℕ → Client). (f c).user) told_clients ∙ is)
      ∙ ap (λ o. publish "logout" (user u) (drop_client now u c o told))
          (ap₂ (λ f l. find_conn f (f c).app_id (f c).conn l 0) told_clients told_listed)

  -- A disconnect by a logged-in client that its user no longer lists changes no client: it closes
  -- neither the channel nor the connection.
  pub disconnect_unlisted :
      ((a : ℕ) → contains a (listed h u) ≡ true → (h.clients a).conn ≢ (h.clients c).conn)
      → (disconnect now c h).clients ≡ h.clients
  unfolding drop_client
  disconnect_unlisted own =
      let none_found =
        find_conn-none h.clients (h.clients c).app_id (h.clients c).conn (listed h u) 0 own in
      ap (λ (x : Hub). x.clients) disconnect_lem
      ∙ (publish_frame "logout" (user u) _).0
      ∙ ap (λ o. (drop_client now u c o told).clients) none_found
      ∙ told_clients

  -- A disconnect by a client that its user lists takes it off the list and closes it, if no two
  -- clients have one connection and the list has no repetitions.
  pub disconnect_listed :
      ((a : ℕ) → (h.clients a).conn ≡ (h.clients c).conn → a ≡ c)
      → HasNoRepeats (listed h u)
      → contains c (listed h u) ≡ true
      → (((disconnect now c h).clients c).closed ≡ true)
        × (contains c (listed (disconnect now c h) u) ≡ false)
  unfolding drop_client
  disconnect_listed own once m =
      let (k, found, gone) = find_conn-some h.clients c (listed h u) 0 own m in
      let off = set_app_clients u (delete_at (0 + k) (listed told u)) told in
      let after : disconnect now c h ≡ publish "logout" (user u) (close now c off) =
        disconnect_lem ∙ ap (λ o. publish "logout" (user u) (drop_client now u c o told)) found in
      let (ec, eu, _, _, _, _) = publish_frame "logout" (user u) (close now c off) in
      let zk : 0 + k ≡ k = omega arith in
      (
        ap (λ (x : Hub). (x.clients c).closed) after
            ∙ ap (λ (f : ℕ → Client). (f c).closed) ec
            ∙ close_closes now c off,
        ap (λ (x : Hub). contains c (listed x u)) after
            ∙ ap (λ (f : ℕ → User). contains c (f u).app_clients) (eu ∙ close-user_at now c off)
            ∙ ground arith
            ∙ ap (λ l. contains c (delete_at (0 + k) l)) told_listed
            ∙ ap (λ i. contains c (delete_at i (listed h u))) zk
            ∙ gone once,
      )
