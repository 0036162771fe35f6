-- ===== src/Ws/Session/UserLogin.antt =====
-- `UserLogin` of ws/hubc.go as a whole.
use aqi.Prelude.{
  ℕ, ◌+◌, ◌<◌, ◌≡◌, refl, ap, subst, ◌∙◌, false, String, List, [], ◌∷◌, some, comparable_string,
  comparable_nat, nat_beq, ◌==◌, ==_iff, contains, HasNoRepeats, arith, Bool-cases, Option-cases,
  inl, inr,
}
use aqi.Prelude.Dict.{get, put, get-put}
use aqi.Ws.Types.{Client, Hub, new_user, set_user, update}
use aqi.Ws.Session.{
  app_login, logged, app_client, user_client, user_or_new, user_login, remove_first,
  remove_from_guests,
}
use aqi.Ws.Session.Invariant.{IsConsistent, IsNew, listed}
use aqi.Ws.Session.Clients.{ids}
use aqi.Ws.Session.Login.{LoggedIn, app_login-LoggedIn}
use aqi.Ws.Session.Entered.{app_client-LoggedIn, guests-app_login, LoggedIn-IsConsistent}

-- The user of a login: it exists, has the id, and nothing else has changed.
record Chosen (uid : String) (c : ℕ) (h : Hub) (u : ℕ) (h' : Hub) : Type 0 where
  consistent : IsConsistent h'
  new : IsNew h' c
  created : u < h'.next_user
  named : (h'.user_at u).suid ≡ uid
  users : h'.users ≡ h.users

abbrev created : String → Hub → Hub
created uid h = set_user h.next_user (new_user uid) (record h { next_user = h.next_user + 1 })

created-IsConsistent : (uid : String) (h : Hub) → IsConsistent h → IsConsistent (created uid h)
created-IsConsistent uid h v = record {
  logged_in = λ u c m. elim (Bool-cases (nat_beq h.next_user u)) [
    | inl t ↦ absurd (ground (arith, t))
    | inr f ↦ v.logged_in u c (ground (arith, f))
  ];
  one_per_app = λ u. elim (Bool-cases (nat_beq h.next_user u)) [
    | inl t ↦
        let none_yet : [] ≡ listed (created uid h) u = ground (arith, t) in
        subst (λ cs. HasNoRepeats (ids h.clients cs)) none_yet tt
    | inr f ↦
        let same : listed h u ≡ listed (created uid h) u = ground (arith, f) in
        subst (λ cs. HasNoRepeats (ids h.clients cs)) same (v.one_per_app u)
  ];
  stored = λ id u e.
      let (is, below) = v.stored id u e in (ground (arith, is, below), omega (arith, below));
  uncreated = λ u le. let old = v.uncreated u (omega (arith, le)) in ground (arith, old);
}

user_or_new-Chosen :
    (uid : String) (c : ℕ) (h : Hub)
    → IsConsistent h
    → IsNew h c
    → Chosen uid c h (user_or_new uid h).0 (user_or_new uid h).1
unfolding user_or_new
user_or_new-Chosen uid c h v new = elim (Option-cases (get h.users uid)) [
  | inr (u, e) ↦
      let (is, below) = v.stored uid u e in
      rw (e, user_or_new)
        (record { consistent = v; new = new; created = below; named = is; users = refl })
  | inl e ↦
      rw (e, user_or_new)
        (record {
          consistent = created-IsConsistent uid h v;
          new = record {
            still_open = new.still_open;
            unlisted = λ u. ground (arith, new.unlisted u);
            own_conn = λ u a m. elim (Bool-cases (nat_beq h.next_user u)) [
              | inl t ↦ absurd (ground (arith, t))
              | inr f ↦ new.own_conn u a (ground (arith, f))
            ];
          };
          created = omega arith;
          named = ground arith;
          users = refl;
        })
]

-- Storing the user under its own id, and leaving the guests.
put-IsConsistent :
    (uid : String) (c u : ℕ) (h : Hub)
    → IsConsistent h
    → u < h.next_user
    → (h.user_at u).suid ≡ uid
    → IsConsistent (remove_from_guests c (record h { users = put h.users uid u }))
unfolding remove_from_guests
put-IsConsistent uid c u h v below is = record {
  logged_in = v.logged_in;
  one_per_app = v.one_per_app;
  uncreated = v.uncreated;
  stored = λ id w e. elim (Bool-cases (uid == id)) [
    | inl t ↦
        let same : uid ≡ id = (==_iff uid id).0 t in
        let it : u ≡ w = ground (arith, get-put h.users uid id u, e, t) in
        rw (← it) (is ∙ same, below)
    | inr f ↦ v.stored id w (ground (arith, get-put h.users uid id u, e, f))
  ];
}

user_client-put :
    (uid app : String) (c u : ℕ) (h : Hub)
    → user_client (remove_from_guests c (record h { users = put h.users uid u })) uid app
      ≡ app_client h u app
unfolding remove_from_guests user_client
user_client-put uid app c u h =
    ground (arith, get-put h.users uid uid u, comparable_string.equal_iff uid uid)

module _ (uid app : String) (c : ℕ) (h : Hub) (v : IsConsistent h) (new : IsNew h c) where
  abbrev u : ℕ
  u = (user_or_new uid h).0

  abbrev h1 : Hub
  h1 = (user_or_new uid h).1

  chosen : Chosen uid c h u h1
  chosen = user_or_new-Chosen uid c h v new

  entered : LoggedIn u app c h1 (app_login u app c h1)
  entered =
      app_login-LoggedIn u app c h1 (chosen.consistent.one_per_app u) (chosen.new.unlisted u)
        (chosen.new.own_conn u)

  pub user_login-IsConsistent : IsConsistent (user_login uid app c h)
  unfolding user_login
  user_login-IsConsistent =
      put-IsConsistent uid c u (app_login u app c h1)
        (LoggedIn-IsConsistent u app c h1 _ entered chosen.consistent chosen.created chosen.new)
        (rw entered.next_user chosen.created) (entered.suid u ∙ chosen.named)

  -- After a login of a new connection the hub finds it under the user's id and the app id.
  pub user_client-user_login : user_client (user_login uid app c h) uid app ≡ some c
  unfolding user_login
  user_client-user_login =
      user_client-put uid app c u (app_login u app c h1)
      ∙ app_client-LoggedIn u app c h1 _ entered (chosen.new.unlisted u)

user_or_new-clients : (uid : String) (h : Hub) → (user_or_new uid h).1.clients ≡ h.clients
unfolding user_or_new
user_or_new-clients uid h = ground arith

-- A login changes no connection.
pub user_login-conn :
    (uid app : String) (c : ℕ) (h : Hub) (v : IsConsistent h) (new : IsNew h c) (x : ℕ)
    → ((user_login uid app c h).clients x).conn ≡ (h.clients x).conn
unfolding user_login remove_from_guests
user_login-conn uid app c h v new x =
    let g = (user_or_new uid h).1 in
    ap (λ (f : ℕ → Client). (f x).conn) (entered uid app c h v new).clients
    ∙ same_conn g
    ∙ ap (λ (f : ℕ → Client). (f x).conn) (user_or_new-clients uid h)
  where
    same_conn :
        (g : Hub)
        → (update g.clients c (logged (user_or_new uid h).0 app (g.clients c)) x).conn
          ≡ (g.clients x).conn
    same_conn g = ground arith

contains-remove_first :
    (c : ℕ) (gs : List ℕ) → HasNoRepeats gs → contains c (remove_first c gs) ≡ false
unfolding remove_first
contains-remove_first c [] n = refl
contains-remove_first c (g ∷ gs) n = elim (Bool-cases (g == c)) [
  | inl t ↦ let gc : g ≡ c = ground arith in rw t (rw gc at n.0)
  | inr f ↦ rw f (ground (arith, f, contains-remove_first c gs n.1))
]

guests-user_or_new : (uid : String) (h : Hub) → (user_or_new uid h).1.guests ≡ h.guests
unfolding user_or_new
guests-user_or_new uid h = ground arith

-- A logged-in client is no guest any more, where it was one at most once.
pub guests-user_login :
    (uid app : String) (c : ℕ) (h : Hub)
    → HasNoRepeats h.guests
    → contains c (user_login uid app c h).guests ≡ false
unfolding user_login remove_from_guests
guests-user_login uid app c h n =
    let (u, h1) = user_or_new uid h in
    let same : (app_login u app c h1).guests ≡ h.guests =
      guests-app_login u app c h1 ∙ guests-user_or_new uid h in
    rw same (contains-remove_first c h.guests n)
