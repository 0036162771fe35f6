-- ===== src/Ws/Session/Login.antt =====
-- `UserLogin` of ws/hubc.go with `appLogin` of ws/user.go.
use aqi.Prelude.{
  ℕ, ◌≡◌, ◌≢◌, refl, ap, ◌∙◌, true, false, String, List, [], ◌∷◌, ◌++◌, Option, none, some,
  comparable_string, comparable_nat, nat_beq, contains, HasNoRepeats, arith, Bool-cases,
  Option-cases, inl, inr,
}
use aqi.Prelude.Dict.{get}
use aqi.Ws.Types.{Client, Hub, User, new_user, set_client, update, user}
use aqi.Ws.PubSub.{publish, init_topic}
use aqi.Ws.Session.{delete_at, find_app, enter, logged, app_login}
use aqi.Ws.Session.Clients.{
  ids, ids-delete_at, contains-delete_at, delete_at-HasNoRepeats, find_app-none, find_app-Hit,
}
use aqi.Ws.Session.Invariant.{listed}

-- `Pub` touches the topics and the queue.
pub publish_frame :
    (id : String) (p : aqi.Ws.Types.Payload) (h : Hub)
    → ((publish id p h).clients ≡ h.clients)
      × ((publish id p h).user_at ≡ h.user_at)
      × ((publish id p h).users ≡ h.users)
      × ((publish id p h).next_user ≡ h.next_user)
      × ((publish id p h).disconnect ≡ h.disconnect)
      × ((publish id p h).guests ≡ h.guests)
unfolding publish init_topic
publish_frame id p h = elim (Option-cases (get h.topics id)) [
  | inl e ↦ (
    ground (arith, e),
    ground (arith, e),
    ground (arith, e),
    ground (arith, e),
    ground (arith, e),
    ground (arith, e),
  )
  | inr (t, e) ↦ (
    ground (arith, e),
    ground (arith, e),
    ground (arith, e),
    ground (arith, e),
    ground (arith, e),
    ground (arith, e),
  )
]

-- What `appLogin` leaves, where it lets a new client in.
pub record LoggedIn (u : ℕ) (app : String) (c : ℕ) (h h' : Hub) : Type 0 where
  pub kept : List ℕ
  pub lists : listed h' u ≡ kept ++ c ∷ []
  pub kept_listed : (x : ℕ) → contains x kept ≡ true → contains x (listed h u) ≡ true
  pub kept_apart : contains app (ids h.clients kept) ≡ false
  pub kept_once : HasNoRepeats (ids h.clients kept)
  pub clients : h'.clients ≡ update h.clients c (logged u app (h.clients c))
  pub suid : (v : ℕ) → (h'.user_at v).suid ≡ (h.user_at v).suid
  pub others : (v : ℕ) → nat_beq u v ≡ false → listed h' v ≡ listed h v
  pub users : h'.users ≡ h.users
  pub next_user : h'.next_user ≡ h.next_user

-- A change of other fields keeps what a login left.
LoggedIn-frame :
    {u : ℕ} {app : String} {c : ℕ} {h : Hub} (h' h'' : Hub)
    → h''.clients ≡ h'.clients
    → h''.user_at ≡ h'.user_at
    → h''.users ≡ h'.users
    → h''.next_user ≡ h'.next_user
    → LoggedIn u app c h h'
    → LoggedIn u app c h h''
LoggedIn-frame {u} h' h'' ec eu es en r = record {
  kept = r.kept;
  lists = ap (λ f. (f u).app_clients) eu ∙ r.lists;
  kept_listed = r.kept_listed;
  kept_apart = r.kept_apart;
  kept_once = r.kept_once;
  clients = ec ∙ r.clients;
  suid = λ v. ap (λ f. (f v).suid) eu ∙ r.suid v;
  others = λ v n. ap (λ f. (f v).app_clients) eu ∙ r.others v n;
  users = es ∙ r.users;
  next_user = en ∙ r.next_user;
}

module _ (u : ℕ) (app : String) (c : ℕ) (h : Hub) (once : HasNoRepeats (ids h.clients (listed h u)))
    (unlisted : contains c (listed h u) ≡ false)
    (own_conn : (a : ℕ)
      → contains a (listed h u) ≡ true
      → (h.clients a).conn ≢ (h.clients c).conn) where
  abbrev marked : Hub
  marked = set_client c (logged u app (h.clients c)) h

  enter-LoggedIn : LoggedIn u app c h (enter u c (find_app h.clients app (listed h u) 0) marked)
  unfolding enter
  enter-LoggedIn = go (find_app h.clients app (listed h u) 0) refl
    where
      go :
          (o : Option (ℕ × ℕ))
          → find_app h.clients app (listed h u) 0 ≡ o
          → LoggedIn u app c h (enter u c o marked)
      go none e = record {
        kept = listed h u;
        lists = ground arith;
        kept_listed = λ x m. m;
        kept_apart = find_app-none h.clients app (listed h u) 0 e;
        kept_once = once;
        clients = refl;
        suid = λ v. ground arith;
        others = λ v n. ground arith;
        users = refl;
        next_user = refl;
      }
      go (some (i, a)) e =
          let hit = find_app-Hit h.clients app (listed h u) 0 i a e in
          let at : i ≡ hit.at = omega (arith, hit.offset) in
          let conns = own_conn a hit.listed in
          let apart : nat_beq c a ≡ false = elim (Bool-cases (nat_beq c a)) [
            | inl t ↦
                let it : a ≡ c = ground arith in absurd (conns (ap (λ x. (h.clients x).conn) it))
            | inr f ↦ f
          ] in
          let same : nat_beq (h.clients a).conn (h.clients c).conn ≡ false =
            ground (arith, conns) in
          record {
            kept = delete_at i (listed h u);
            lists = ground (arith, apart, same);
            kept_listed = λ x m. contains-delete_at x i (listed h u) m;
            kept_apart = rw (ids-delete_at h.clients i (listed h u), at) (hit.no_other once);
            kept_once =
                rw (ids-delete_at h.clients i (listed h u)) (delete_at-HasNoRepeats i _ once);
            clients = ground (arith, apart, same);
            suid = λ v. ground (arith, apart, same);
            others = λ v n. ground (arith, apart, same);
            users = ground (arith, apart, same);
            next_user = ground (arith, apart, same);
          }

  pub app_login-LoggedIn : LoggedIn u app c h (app_login u app c h)
  unfolding app_login
  app_login-LoggedIn =
      let entered = enter u c (find_app h.clients app (listed h u) 0) marked in
      let (ec, eu, es, en, _, _) = publish_frame "login" (user u) entered in
      LoggedIn-frame entered (publish "login" (user u) entered) ec eu es en enter-LoggedIn
