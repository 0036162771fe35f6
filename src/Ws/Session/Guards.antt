-- ===== src/Ws/Session/Guards.antt =====
-- A round of `guard` of ws/hubc.go, and a connection that `Run` receives, leave the sessions alone.
use aqi.Prelude.{
  ℕ, ◌≡◌, refl, ap, ◌∙◌, String, [], ◌∷◌, comparable_string, comparable_nat, nat_beq, ◌==◌, length,
  arith, Bool-cases, inl, inr, if_intro, option_intro,
}
use aqi.Prelude.Dict.{Dict, get, remove, get-remove}
use aqi.Ws.Types.{Hub, Now, User, client, suid, set_user}
use aqi.Ws.PubSub.{remove_sub_user, unsub_loop, unsub_all_topics}
use aqi.Ws.Session.{connect, guard_user, guard_users, guard}
use aqi.Ws.Session.Invariant.{listed}
use aqi.Ws.Session.Frame.{
  SameSessions, SameSessions-refl, SameSessions-trans, SameSessions-heaps, publish-SameSessions,
  log-SameSessions,
}

remove_sub_user-SameSessions :
    (id uid : String) (h : Hub) → SameSessions h (remove_sub_user id uid h)
unfolding remove_sub_user
remove_sub_user-SameSessions id uid h =
    option_intro (SameSessions h) (get h.topics id) h _ (SameSessions-refl h)
      (λ t. SameSessions-heaps h _ refl refl refl refl)

-- A change to a user that keeps its id and its clients.
set_user-SameSessions :
    (u : ℕ) (us : User) (h : Hub)
    → us.suid ≡ (h.user_at u).suid
    → us.app_clients ≡ (h.user_at u).app_clients
    → SameSessions h (set_user u us h)
set_user-SameSessions u us h ei ec = record {
  at = λ c. (refl, refl, refl, refl, refl);
  lists = λ w. elim (Bool-cases (nat_beq u w)) [
    | inl t ↦
        let uw : u ≡ w = ground arith in
        let e : us.app_clients ≡ listed h w = ec ∙ ap (listed h) uw in ground (arith, t, e)
    | inr f ↦ ground (arith, f)
  ];
  suids = λ w. elim (Bool-cases (nat_beq u w)) [
    | inl t ↦
        let uw : u ≡ w = ground arith in
        let e : us.suid ≡ (h.user_at w).suid = ei ∙ ap (λ x. (h.user_at x).suid) uw in
        ground (arith, t, e)
    | inr f ↦ ground (arith, f)
  ];
  next = refl;
  users = λ uid w e. e;
}

unsub_loop-SameSessions :
    (subs : Dict String String) (u : ℕ) (h : Hub) → SameSessions h (unsub_loop subs u h)
unfolding unsub_loop
unsub_loop-SameSessions [] u h = SameSessions-refl h
unsub_loop-SameSessions ((id, topic) ∷ rest) u h =
    let h1 = remove_sub_user topic (h.user_at u).suid h in
    SameSessions-trans h h1 _ (remove_sub_user-SameSessions topic (h.user_at u).suid h) (
      SameSessions-trans h1 _ _ (set_user-SameSessions u _ h1 refl refl)
        (unsub_loop-SameSessions rest u _))

drop_user-SameSessions :
    (key : String) (h : Hub) → SameSessions h (record h { users = remove h.users key })
drop_user-SameSessions key h = record {
  at = λ c. (refl, refl, refl, refl, refl);
  lists = λ u. refl;
  suids = λ u. refl;
  next = refl;
  users = λ uid u e. ground (arith, get-remove h.users key uid, e);
}

guard_user-SameSessions :
    (now : Now) (key : String) (u n : ℕ) (h : Hub) → SameSessions h (guard_user now key u n h).1
unfolding guard_user unsub_all_topics
guard_user-SameSessions now key u n h =
    if_intro (λ (p : ℕ × Hub). SameSessions h p.1) (length (h.user_at u).app_clients == 0) _ _
      (if_intro (SameSessions h) _ _ _
        (SameSessions-trans h _ _ (unsub_loop-SameSessions (h.user_at u).sub_topics u h) (
          SameSessions-trans _ _ _ (drop_user-SameSessions key _)
            (publish-SameSessions "cleanupUser" (suid (h.user_at u).suid) _)))
        (SameSessions-refl h))
      (SameSessions-refl h)

guard_users-SameSessions :
    (now : Now) (users : Dict String ℕ) (n : ℕ) (h : Hub)
    → SameSessions h (guard_users now users n h).1
unfolding guard_users
guard_users-SameSessions now [] n h = SameSessions-refl h
guard_users-SameSessions now ((key, u) ∷ rest) n h =
    SameSessions-trans h _ _ (guard_user-SameSessions now key u n h)
      (guard_users-SameSessions now rest _ _)

pub guard-SameSessions : (now : Now) (h : Hub) → SameSessions h (guard now h)
unfolding guard
guard-SameSessions now h = SameSessions-trans h _ _ (guard_users-SameSessions now h.users 0 h) (
    SameSessions-trans _ _ _ (SameSessions-heaps _ _ refl refl refl refl) (
      SameSessions-trans _ _ _ (publish-SameSessions "userCount" _ _)
        (publish-SameSessions "guestsCount" _ _)))

pub connect-SameSessions : (now : Now) (c : ℕ) (h : Hub) → SameSessions h (connect now c h)
unfolding connect
connect-SameSessions now c h =
    SameSessions-trans h _ _ (SameSessions-heaps h _ refl refl refl refl) (
      SameSessions-trans _ _ _ (publish-SameSessions "connect" (client c) _)
        (log-SameSessions now c "--" "connection" _))
