-- ===== src/Ws/Session/Keeps.antt =====
-- What a close, a publication and a removal from a list do to the invariant of the sessions.
use aqi.Prelude.{
  ℕ, ◌+◌, ◌≡◌, refl, sym, ap, subst, ◌∙◌, true, false, String, List, [], ◌∷◌, some,
  comparable_string, comparable_nat, nat_beq, ◌==◌, ==_iff, contains, HasNoRepeats, arith,
  Bool-cases, inl, inr, ◌&&◌, if_intro,
}
use aqi.Prelude.Dict.{get}
use aqi.Ws.Types.{Client, Hub, Now, User, Payload, set_client}
use aqi.Ws.Client.{log, close}
use aqi.Ws.PubSub.{publish}
use aqi.Ws.Session.{delete_at, find_conn, set_app_clients}
use aqi.Ws.Session.Clients.{
  ids, ids-update, ids-delete_at, contains-delete_at, delete_at-HasNoRepeats,
}
use aqi.Ws.Session.Invariant.{IsConsistent, listed}
use aqi.Ws.Session.Login.{publish_frame}

-- The invariant reads four fields of the hub.
pub IsConsistent-frame :
    (h h' : Hub)
    → h'.clients ≡ h.clients
    → h'.user_at ≡ h.user_at
    → h'.users ≡ h.users
    → h'.next_user ≡ h.next_user
    → IsConsistent h
    → IsConsistent h'
IsConsistent-frame h h' ec eu es en v = record {
  logged_in = λ u c m.
      rw ec (v.logged_in u c (ap (λ (f : ℕ → User). contains c (f u).app_clients) (sym eu) ∙ m));
  one_per_app = λ u. rw (ec, eu) (v.one_per_app u);
  stored = λ uid u e. rw (eu, en) (v.stored uid u (ap (λ d. get d uid) (sym es) ∙ e));
  uncreated = λ u le. ap (λ (f : ℕ → User). (f u).app_clients) eu ∙ v.uncreated u (rw en at le);
}

pub publish-IsConsistent :
    (id : String) (p : Payload) (h : Hub) → IsConsistent h → IsConsistent (publish id p h)
publish-IsConsistent id p h v =
    let (ec, eu, es, en, _, _) = publish_frame id p h in
    IsConsistent-frame h (publish id p h) ec eu es en v

-- A client that its user does not list may change in any way.
pub unlisted-IsConsistent :
    (c : ℕ) (cl : Client) (h : Hub)
    → ((u : ℕ) → contains c (listed h u) ≡ false)
    → IsConsistent h
    → IsConsistent (set_client c cl h)
unlisted-IsConsistent c cl h off v = record {
  logged_in = λ u d m. elim (Bool-cases (nat_beq c d)) [
    | inl t ↦
        let cd : c ≡ d = ground arith in absurd (let n = off u in let y = rw (← cd) at m in cc)
    | inr f ↦ rw f (v.logged_in u d m)
  ];
  one_per_app = λ u. rw (ids-update h.clients c cl (listed h u) (off u)) (v.one_per_app u);
  stored = v.stored;
  uncreated = v.uncreated;
}

-- The log writes to the ring of a client alone.
pub log-IsConsistent :
    (now : Now) (c : ℕ) (symbol s : String) (h : Hub)
    → IsConsistent h
    → IsConsistent (log now c symbol s h)
unfolding log
log-IsConsistent now c symbol s h v = record {
  logged_in = λ u d m. let g = v.logged_in u d m in ground (arith, g);
  one_per_app = λ u. rw (same_ids (listed h u)) (v.one_per_app u);
  stored = v.stored;
  uncreated = v.uncreated;
}
  where
    same_ids : (cs : List ℕ) → ids (log now c symbol s h).clients cs ≡ ids h.clients cs
    same_ids [] = refl
    same_ids (d ∷ cs) = ground (arith, same_ids cs)

pub close-IsConsistent :
    (now : Now) (c : ℕ) (h : Hub)
    → ((u : ℕ) → contains c (listed h u) ≡ false)
    → IsConsistent h
    → IsConsistent (close now c h)
unfolding close
close-IsConsistent now c h off v =
    if_intro IsConsistent (h.clients c).closed h _ v
      (log-IsConsistent now c "xx" _ _ (unlisted-IsConsistent c _ h off v))

pub delete-IsConsistent :
    (u k : ℕ) (h : Hub)
    → IsConsistent h
    → IsConsistent (set_app_clients u (delete_at k (listed h u)) h)
delete-IsConsistent u k h v = record {
  logged_in = λ w c m. elim (Bool-cases (nat_beq u w)) [
    | inl t ↦
        let uw : u ≡ w = ground arith in
        let kept : contains c (delete_at k (listed h u)) ≡ true = ground (arith, m, t) in
        rw (← uw) (v.logged_in u c (contains-delete_at c k (listed h u) kept))
    | inr f ↦ v.logged_in w c (ground (arith, m, f))
  ];
  one_per_app = λ w. elim (Bool-cases (nat_beq u w)) [
    | inl t ↦
        let same : delete_at k (listed h u)
            ≡ listed (set_app_clients u (delete_at k (listed h u)) h) w =
          ground (arith, t) in
        subst (λ l. HasNoRepeats (ids h.clients l)) same
          (rw (ids-delete_at h.clients k (listed h u))
            (delete_at-HasNoRepeats k (ids h.clients (listed h u)) (v.one_per_app u)))
    | inr f ↦
        let same : listed h w ≡ listed (set_app_clients u (delete_at k (listed h u)) h) w =
          ground (arith, f) in
        subst (λ l. HasNoRepeats (ids h.clients l)) same (v.one_per_app w)
  ];
  stored = λ uid w e. let g = v.stored uid w e in ground (arith, g);
  uncreated = λ w le. let g = v.uncreated w le in ground (arith, g);
}

-- A hit of the search for a connection is a listed client with it.
pub find_conn_hit :
    (heap : ℕ → Client) (app : String) (conn : ℕ) (cs : List ℕ) (i k : ℕ)
    → find_conn heap app conn cs i ≡ some k
    → (a : ℕ) × (contains a cs ≡ true) × ((heap a).conn ≡ conn)
unfolding find_conn
find_conn_hit heap app conn [] i k e = cc
find_conn_hit heap app conn (c ∷ cs) i k e =
    elim (Bool-cases ((heap c).app_id == app && nat_beq conn (heap c).conn)) [
      | inl t ↦ (c, ground arith, ground arith)
      | inr f ↦
          let (a, m, same) = find_conn_hit heap app conn cs (i + 1) k (ground (arith, f)) in
          (a, ground (arith, m), same)
    ]

pub ids_of_contains :
    (heap : ℕ → Client) (c : ℕ) (cs : List ℕ)
    → contains c cs ≡ true
    → contains (heap c).app_id (ids heap cs) ≡ true
ids_of_contains heap c [] m = m
ids_of_contains heap c (d ∷ cs) m = elim (Bool-cases (nat_beq c d)) [
  | inl t ↦
      let cd : c ≡ d = ground arith in
      let same : ((heap c).app_id == (heap d).app_id) ≡ true =
        (==_iff (heap c).app_id (heap d).app_id).1 (ap (λ x. (heap x).app_id) cd) in
      ground (arith, same)
  | inr f ↦ let rest = ids_of_contains heap c cs (ground (arith, m, f)) in ground (arith, rest)
]

pub HasNoRepeats-ids :
    (heap : ℕ → Client) (cs : List ℕ) → HasNoRepeats (ids heap cs) → HasNoRepeats cs
HasNoRepeats-ids heap [] n = tt
HasNoRepeats-ids heap (c ∷ cs) n = (
  elim (Bool-cases (contains c cs)) [
    | inl t ↦ absurd (let m = ids_of_contains heap c cs t in let n' = n.0 in cc)
    | inr f ↦ f
  ],
  HasNoRepeats-ids heap cs n.1,
)

-- Each connection belongs to one client, as `HttpHandler` creates them.
abbrev pub OwnConns : Hub → Type 0
OwnConns h = (a b : ℕ) → (h.clients a).conn ≡ (h.clients b).conn → a ≡ b
