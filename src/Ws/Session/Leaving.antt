-- ===== src/Ws/Session/Leaving.antt =====
-- What `Run` of ws/hubc.go does on a disconnect keeps the invariant of the sessions.
use aqi.Prelude.{
  ℕ, ◌+◌, ◌≡◌, refl, sym, ap, subst, ◌∙◌, false, Option, none, some, comparable_string,
  comparable_nat, nat_beq, contains, arith, Bool-cases, inl, inr,
}
use aqi.Ws.Types.{Client, Hub, Now, client, user}
use aqi.Ws.Client.{log, close}
use aqi.Ws.PubSub.{publish}
use aqi.Ws.Session.{
  delete_at, find_conn, drop_client, leave, app_logout, disconnect, remove_from_guests,
  set_app_clients,
}
use aqi.Ws.Session.Invariant.{IsConsistent, listed}
use aqi.Ws.Session.Login.{publish_frame}
use aqi.Ws.Session.Logout.{find_conn-some}
use aqi.Ws.Session.Keeps.{
  OwnConns, IsConsistent-frame, publish-IsConsistent, close-IsConsistent, delete-IsConsistent,
  find_conn_hit, HasNoRepeats-ids,
}

-- A client is listed by its own user alone.
only_own :
    (h : Hub) (c w : ℕ)
    → IsConsistent h
    → ((h.clients c).user ≡ some w → contains c (listed h w) ≡ false)
    → contains c (listed h w) ≡ false
only_own h c w v n = elim (Bool-cases (contains c (listed h w))) [
  | inl t ↦ n (v.logged_in w c t).0
  | inr f ↦ f
]

leave-IsConsistent :
    (now : Now) (c u k : ℕ) (h : Hub)
    → IsConsistent h
    → OwnConns h
    → (h.clients c).user ≡ some u
    → find_conn h.clients (h.clients c).app_id (h.clients c).conn (listed h u) 0 ≡ some k
    → IsConsistent (close now c (set_app_clients u (delete_at k (listed h u)) h))
leave-IsConsistent now c u k h v own is found =
    let (a, m, same) = find_conn_hit h.clients _ _ (listed h u) 0 k found in
    let ac : a ≡ c = own a c same in
    let (j, found', gone) =
      find_conn-some h.clients c (listed h u) 0 (λ x e. own x c e) (rw ac at m) in
    let jk : j ≡ k = omega (arith, offset k j (sym found ∙ found')) in
    let out = gone (HasNoRepeats-ids h.clients (listed h u) (v.one_per_app u)) in
    close-IsConsistent now c _
      (λ w. gone_from w (ap (λ i. contains c (delete_at i (listed h u))) (sym jk) ∙ out))
      (delete-IsConsistent u k h v)
  where
    gone_from :
        (w : ℕ)
        → contains c (delete_at k (listed h u)) ≡ false
        → contains c (listed (set_app_clients u (delete_at k (listed h u)) h) w) ≡ false
    gone_from w out = elim (Bool-cases (nat_beq u w)) [
      | inl t ↦ ground (arith, t, out)
      | inr f ↦
          let n = only_own h c w v (λ e. absurd (ground (arith, e, is, f))) in ground (arith, f, n)
    ]

    offset : (k j : ℕ) → some k ≡ some (0 + j) → j ≡ k
    offset k j e = ground arith

drop_client-IsConsistent :
    (now : Now) (c u : ℕ) (h : Hub)
    → IsConsistent h
    → OwnConns h
    → (h.clients c).user ≡ some u
    → (o : Option ℕ)
    → find_conn h.clients (h.clients c).app_id (h.clients c).conn (listed h u) 0 ≡ o
    → IsConsistent (drop_client now u c o h)
unfolding drop_client
drop_client-IsConsistent now c u h v own is none found = v
drop_client-IsConsistent now c u h v own is (some k) found =
    leave-IsConsistent now c u k h v own is found

leave_any-IsConsistent :
    (now : Now) (c : ℕ) (h : Hub)
    → IsConsistent h
    → OwnConns h
    → (o : Option ℕ) → (h.clients c).user ≡ o
    → IsConsistent (leave now c o h)
unfolding leave app_logout remove_from_guests
leave_any-IsConsistent now c h v own none is =
    IsConsistent-frame (close now c h) _ refl refl refl refl
      (close-IsConsistent now c h (λ w. only_own h c w v (λ e. absurd (ground (arith, e, is)))) v)
leave_any-IsConsistent now c h v own (some u) is =
    publish-IsConsistent "logout" (user u) _ (drop_client-IsConsistent now c u h v own is _ refl)

-- A disconnect, by whichever client, keeps the invariant of the sessions.
pub disconnect-IsConsistent :
    (now : Now) (c : ℕ) (h : Hub) → IsConsistent h → OwnConns h → IsConsistent (disconnect now c h)
unfolding disconnect
disconnect-IsConsistent now c h v own =
    let told = publish "disconnect" (client c) h in
    let ec = (publish_frame "disconnect" (client c) h).0 in
    leave_any-IsConsistent now c told (publish-IsConsistent "disconnect" (client c) h v)
      (subst (λ (f : ℕ → Client). (a b : ℕ) → (f a).conn ≡ (f b).conn → a ≡ b) (sym ec) own)
      (told.clients c).user refl

close-conn :
    (now : Now) (c : ℕ) (h : Hub) (x : ℕ) → ((close now c h).clients x).conn ≡ (h.clients x).conn
unfolding close log
close-conn now c h x = ground arith

drop_client-conn :
    (now : Now) (c u : ℕ) (o : Option ℕ) (h : Hub) (x : ℕ)
    → ((drop_client now u c o h).clients x).conn ≡ (h.clients x).conn
unfolding drop_client
drop_client-conn now c u none h x = refl
drop_client-conn now c u (some k) h x = close-conn now c _ x

leave-conn :
    (now : Now) (c : ℕ) (o : Option ℕ) (h : Hub) (x : ℕ)
    → ((leave now c o h).clients x).conn ≡ (h.clients x).conn
unfolding leave remove_from_guests app_logout
leave-conn now c none h x = close-conn now c h x
leave-conn now c (some u) h x =
    ap (λ (f : ℕ → Client). (f x).conn) (publish_frame "logout" (user u) _).0
    ∙ drop_client-conn now c u _ h x

pub disconnect-conn :
    (now : Now) (c : ℕ) (h : Hub) (x : ℕ)
    → ((disconnect now c h).clients x).conn ≡ (h.clients x).conn
unfolding disconnect
disconnect-conn now c h x =
    leave-conn now c _ _ x
    ∙ ap (λ (f : ℕ → Client). (f x).conn) (publish_frame "disconnect" (client c) h).0
