-- ===== src/Ws/Session/Frame.antt =====
-- Operations of ws/ that leave the sessions alone: messages, topics and logs.
use mathlib.Core.List.{foldl}
use aqi.Prelude.{
  ℕ, ◌≡◌, refl, sym, ap, ap₂, subst, ◌∙◌, String, List, [], ◌∷◌, some, comparable_string,
  comparable_nat, nat_beq, contains, arith, Bool-cases, inl, inr, if_intro, option_intro,
}
use aqi.Prelude.Dict.{Dict, get}
use aqi.Ws.Types.{Action, Client, Hub, Now, Payload, TopicMsg, User, set_client}
use aqi.Ws.Client.{log, send_msg}
use aqi.Ws.PubSub.{publish, user_send_msg, send_to_sub_user, apply_func, deliver_msg, deliver}
use aqi.Ws.Session.Clients.{ids}
use aqi.Ws.Session.Invariant.{IsConsistent, listed}
use aqi.Ws.Session.Login.{publish_frame}
use aqi.Ws.Session.Keeps.{OwnConns}

-- The parts of a client that a session rests on.
abbrev pub SameClient : Client → Client → Type 0
SameClient a b =
    (b.user ≡ a.user)
    × (b.is_login ≡ a.is_login)
    × (b.closed ≡ a.closed)
    × (b.app_id ≡ a.app_id)
    × (b.conn ≡ a.conn)

-- The sessions are as they were; users may have been removed from the hub.
pub record SameSessions (h h' : Hub) : Type 0 where
  pub at : (c : ℕ) → SameClient (h.clients c) (h'.clients c)
  pub lists : (u : ℕ) → listed h' u ≡ listed h u
  pub suids : (u : ℕ) → (h'.user_at u).suid ≡ (h.user_at u).suid
  pub next : h'.next_user ≡ h.next_user
  pub users : (uid : String) (u : ℕ) → get h'.users uid ≡ some u → get h.users uid ≡ some u

pub SameSessions-refl : (h : Hub) → SameSessions h h
SameSessions-refl h = record {
  at = λ c. (refl, refl, refl, refl, refl);
  lists = λ u. refl;
  suids = λ u. refl;
  next = refl;
  users = λ uid u e. e;
}

pub SameSessions-trans : (a b c : Hub) → SameSessions a b → SameSessions b c → SameSessions a c
SameSessions-trans a b c p q = record {
  at = λ x. (
    ((q.at x).0 ∙ (p.at x).0),
    ((q.at x).1 ∙ (p.at x).1),
    ((q.at x).2 ∙ (p.at x).2),
    ((q.at x).3 ∙ (p.at x).3),
    ((q.at x).4 ∙ (p.at x).4),
  );
  lists = λ u. q.lists u ∙ p.lists u;
  suids = λ u. q.suids u ∙ p.suids u;
  next = q.next ∙ p.next;
  users = λ uid u e. p.users uid u (q.users uid u e);
}

-- Equal heaps and users are enough.
pub SameSessions-heaps :
    (h h' : Hub)
    → h'.clients ≡ h.clients
    → h'.user_at ≡ h.user_at
    → h'.users ≡ h.users
    → h'.next_user ≡ h.next_user
    → SameSessions h h'
SameSessions-heaps h h' ec eu es en = record {
  at = λ c. (
    ap (λ (f : ℕ → Client). (f c).user) ec,
    ap (λ (f : ℕ → Client). (f c).is_login) ec,
    ap (λ (f : ℕ → Client). (f c).closed) ec,
    ap (λ (f : ℕ → Client). (f c).app_id) ec,
    ap (λ (f : ℕ → Client). (f c).conn) ec,
  );
  lists = λ u. ap (λ (f : ℕ → User). (f u).app_clients) eu;
  suids = λ u. ap (λ (f : ℕ → User). (f u).suid) eu;
  next = en;
  users = λ uid u e. ap (λ d. get d uid) (sym es) ∙ e;
}

ids_same : (h h' : Hub) → SameSessions h h' → (cs : List ℕ) → ids h'.clients cs ≡ ids h.clients cs
ids_same h h' s [] = refl
ids_same h h' s (c ∷ cs) = ap₂ (λ a l. a ∷ l) (s.at c).3 (ids_same h h' s cs)

pub SameSessions-IsConsistent : (h h' : Hub) → SameSessions h h' → IsConsistent h → IsConsistent h'
SameSessions-IsConsistent h h' s v = record {
  logged_in = λ u c m.
      let (a, b, d) = v.logged_in u c (ap (contains c) (sym (s.lists u)) ∙ m) in
      ((s.at c).0 ∙ a, (s.at c).1 ∙ b, (s.at c).2 ∙ d);
  one_per_app = λ u. rw (s.lists u, ids_same h h' s (listed h u)) (v.one_per_app u);
  stored = λ uid u e. let (a, b) = v.stored uid u (s.users uid u e) in (s.suids u ∙ a, rw s.next b);
  uncreated = λ u le. s.lists u ∙ v.uncreated u (rw s.next at le);
}

pub SameSessions-OwnConns : (h h' : Hub) → SameSessions h h' → OwnConns h → OwnConns h'
SameSessions-OwnConns h h' s own a b e = own a b (sym (s.at a).4 ∙ e ∙ (s.at b).4)

pub publish-SameSessions : (id : String) (p : Payload) (h : Hub) → SameSessions h (publish id p h)
publish-SameSessions id p h =
    let (ec, eu, es, en, _, _) = publish_frame id p h in SameSessions-heaps h _ ec eu es en

-- A change to a client that keeps those parts.
set_client-SameSessions :
    (c : ℕ) (cl : Client) (h : Hub)
    → SameClient (h.clients c) cl
    → SameSessions h (set_client c cl h)
set_client-SameSessions c cl h same = record {
  at = λ x. elim (Bool-cases (nat_beq c x)) [
    | inl t ↦
        let cx : c ≡ x = ground arith in rw t (subst (λ y. SameClient (h.clients y) cl) cx same)
    | inr f ↦ rw f (refl, refl, refl, refl, refl)
  ];
  lists = λ u. refl;
  suids = λ u. refl;
  next = refl;
  users = λ uid u e. e;
}

pub log-SameSessions :
    (now : Now) (c : ℕ) (symbol s : String) (h : Hub) → SameSessions h (log now c symbol s h)
unfolding log
log-SameSessions now c symbol s h = set_client-SameSessions c _ h (refl, refl, refl, refl, refl)

pub send_msg-SameSessions : (c : ℕ) (msg : Action) (h : Hub) → SameSessions h (send_msg c msg h)
unfolding send_msg
send_msg-SameSessions c msg h =
    if_intro (SameSessions h) (h.clients c).send_closed _ _
      (SameSessions-heaps h _ refl refl refl refl)
      (set_client-SameSessions c _ h (refl, refl, refl, refl, refl))

sends-SameSessions :
    (cs : List ℕ) (msg : Action) (h : Hub) → SameSessions h (foldl (λ g c. send_msg c msg g) h cs)
sends-SameSessions [] msg h = SameSessions-refl h
sends-SameSessions (c ∷ cs) msg h =
    SameSessions-trans h (send_msg c msg h) _ (send_msg-SameSessions c msg h)
      (sends-SameSessions cs msg (send_msg c msg h))

send_to_sub_user-SameSessions :
    (subs : Dict String ℕ) (msg : Action) (h : Hub) → SameSessions h (send_to_sub_user subs msg h)
unfolding send_to_sub_user user_send_msg
send_to_sub_user-SameSessions [] msg h = SameSessions-refl h
send_to_sub_user-SameSessions ((id, since) ∷ rest) msg h =
    SameSessions-trans h _ _
      (option_intro (SameSessions h) (get h.users id) h (λ u. user_send_msg u msg h)
        (SameSessions-refl h) (λ u. sends-SameSessions (h.user_at u).app_clients msg h))
      (send_to_sub_user-SameSessions rest msg _)

apply_func-SameSessions :
    (fs : Dict String ℕ) (msg : TopicMsg) (h : Hub) → SameSessions h (apply_func fs msg h)
unfolding apply_func
apply_func-SameSessions [] msg h = SameSessions-refl h
apply_func-SameSessions ((key, f) ∷ rest) msg h =
    SameSessions-trans h _ _ (SameSessions-heaps h _ refl refl refl refl)
      (apply_func-SameSessions rest msg _)

pub deliver-SameSessions : (h : Hub) → SameSessions h (deliver h)
unfolding deliver deliver_msg
deliver-SameSessions h = go h.queue
  where
    go :
        (q : List TopicMsg)
        → SameSessions h
            (elim q [ [] ↦ h | msg ∷ rest ↦ deliver_msg msg (record h { queue = rest }) ])
    go [] = SameSessions-refl h
    go (msg ∷ rest) =
        let h1 = record h { queue = rest } in
        option_intro (SameSessions h) (get h.topics msg.topic_id) h1 _
          (SameSessions-heaps h h1 refl refl refl refl)
          (λ t. SameSessions-trans h h1 _ (SameSessions-heaps h h1 refl refl refl refl) (
            SameSessions-trans h1 (apply_func t.sub_handlers msg h1) _
              (apply_func-SameSessions t.sub_handlers msg h1)
              (send_to_sub_user-SameSessions t.sub_users msg.msg _)))
