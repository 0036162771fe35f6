-- ===== src/Ws/PubSub/Delivery.antt =====
-- What a message reaches: `User.SendMsg`, and a round of `PubSub.Start` in ws/pubsub.go.
use mathlib.Core.List.{Memᴰ, foldl}
use mathlib.Core.List.Memᴰ
use aqi.Prelude.{
  ℕ, ◌≡◌, refl, sym, ap, ◌∙◌, true, false, String, List, [], ◌∷◌, ◌++◌, none, some,
  comparable_string, comparable_nat, nat_beq, ◌==◌, ==_iff, contains, arith, Bool-cases, inl, inr,
  if_intro, option_intro, subst,
}
use aqi.Prelude.Dict.{Dict, get}
use aqi.Ws.Types.{Action, Hub, Topic, TopicMsg, User}
use aqi.Ws.Client.{send_msg}
use aqi.Ws.PubSub.{user_send_msg, send_to_sub_user, apply_func, deliver_msg, deliver}

-- The message waits in the client's channel.
abbrev pub Received : Action → ℕ → Hub → Type 0
Received msg c h = Memᴰ msg (h.clients c).send

-- What deliveries keep: users and lists, which channels are closed, and what was received.
pub record Delivers (h h' : Hub) : Type 0 where
  pub users : h'.users ≡ h.users
  pub user_at : h'.user_at ≡ h.user_at
  pub closed : (c : ℕ) → (h'.clients c).send_closed ≡ (h.clients c).send_closed
  pub received : (msg : Action) (c : ℕ) → Received msg c h → Received msg c h'

Delivers-refl : (h : Hub) → Delivers h h
Delivers-refl h = record {
  users = refl;
  user_at = refl;
  closed = λ c. refl;
  received = λ msg c r. r;
}

Delivers-trans : (a b c : Hub) → Delivers a b → Delivers b c → Delivers a c
Delivers-trans a b c p q = record {
  users = q.users ∙ p.users;
  user_at = q.user_at ∙ p.user_at;
  closed = λ x. q.closed x ∙ p.closed x;
  received = λ msg x r. q.received msg x (p.received msg x r);
}

send_msg-Delivers : (c : ℕ) (msg : Action) (h : Hub) → Delivers h (send_msg c msg h)
unfolding send_msg
send_msg-Delivers c msg h =
    if_intro (Delivers h) (h.clients c).send_closed _ _
      (record { users = refl; user_at = refl; closed = λ x. refl; received = λ m x r. r })
      (record {
        users = refl;
        user_at = refl;
        closed = λ x. ground arith;
        received = λ m x r. elim (Bool-cases (nat_beq c x)) [
          | inl t ↦
              let cx : c ≡ x = ground arith in rw t (Memᴰ.append_left (msg ∷ []) (rw (← cx) at r))
          | inr f ↦ rw f r
        ];
      })

send_msg-Received :
    (c : ℕ) (msg : Action) (h : Hub)
    → (h.clients c).send_closed ≡ false
    → Received msg c (send_msg c msg h)
unfolding send_msg
send_msg-Received c msg h e =
    let self : nat_beq c c ≡ true = ground arith in
    rw (e, self) (Memᴰ.append_right (h.clients c).send (Memᴰ.head refl))

sends-Delivers :
    (cs : List ℕ) (msg : Action) (h : Hub) → Delivers h (foldl (λ g c. send_msg c msg g) h cs)
sends-Delivers [] msg h = Delivers-refl h
sends-Delivers (c ∷ cs) msg h =
    Delivers-trans h (send_msg c msg h) _ (send_msg-Delivers c msg h)
      (sends-Delivers cs msg (send_msg c msg h))

sends-Received :
    (cs : List ℕ) (msg : Action) (h : Hub) (c : ℕ)
    → contains c cs ≡ true
    → (h.clients c).send_closed ≡ false
    → Received msg c (foldl (λ g d. send_msg d msg g) h cs)
sends-Received [] msg h c m e = cc
sends-Received (d ∷ cs) msg h c m e = elim (Bool-cases (nat_beq c d)) [
  | inl t ↦
      let cd : c ≡ d = ground arith in
      (sends-Delivers cs msg (send_msg d msg h)).received msg c
        (subst (λ x. Received msg c (send_msg x msg h)) cd (send_msg-Received c msg h e))
  | inr f ↦
      sends-Received cs msg (send_msg d msg h) c (ground (arith, m, f))
        ((send_msg-Delivers d msg h).closed c ∙ e)
]

-- A message to a user reaches each client that the user lists and whose channel is open.
pub user_send_msg-Received :
    (u : ℕ) (msg : Action) (h : Hub) (c : ℕ)
    → contains c (h.user_at u).app_clients ≡ true
    → (h.clients c).send_closed ≡ false
    → Received msg c (user_send_msg u msg h)
unfolding user_send_msg
user_send_msg-Received u msg h c m e = sends-Received (h.user_at u).app_clients msg h c m e

abbrev one_sub : String → Action → Hub → Hub
one_sub suid msg h = elim (get h.users suid) [ none ↦ h | some u ↦ user_send_msg u msg h ]

one_sub-Delivers : (suid : String) (msg : Action) (h : Hub) → Delivers h (one_sub suid msg h)
unfolding user_send_msg
one_sub-Delivers suid msg h =
    option_intro (Delivers h) (get h.users suid) h (λ u. user_send_msg u msg h) (Delivers-refl h)
      (λ u. sends-Delivers (h.user_at u).app_clients msg h)

subs-Delivers :
    (subs : Dict String ℕ) (msg : Action) (h : Hub) → Delivers h (send_to_sub_user subs msg h)
unfolding send_to_sub_user
subs-Delivers [] msg h = Delivers-refl h
subs-Delivers ((suid, t) ∷ rest) msg h =
    Delivers-trans h (one_sub suid msg h) _ (one_sub-Delivers suid msg h) (subs-Delivers rest msg _)

subs-Received :
    (subs : Dict String ℕ) (msg : Action) (h : Hub) (suid : String) (t u c : ℕ)
    → get subs suid ≡ some t
    → get h.users suid ≡ some u
    → contains c (h.user_at u).app_clients ≡ true
    → (h.clients c).send_closed ≡ false
    → Received msg c (send_to_sub_user subs msg h)
unfolding send_to_sub_user get
subs-Received [] msg h suid t u c g k m e = cc
subs-Received ((s, t') ∷ rest) msg h suid t u c g k m e = elim (Bool-cases (s == suid)) [
  | inl same ↦
      let it : s ≡ suid = (==_iff s suid).0 same in
      (subs-Delivers rest msg (one_sub s msg h)).received msg c
        (subst (λ x. Received msg c (one_sub x msg h)) (sym it) (reach k))
  | inr other ↦
      let d = one_sub-Delivers s msg h in
      subs-Received rest msg (one_sub s msg h) suid t u c (ground (arith, g, other))
        (ap (λ x. get x suid) d.users ∙ k)
        (ap (λ (f : ℕ → User). contains c (f u).app_clients) d.user_at ∙ m) (d.closed c ∙ e)
]
  where
    reach : get h.users suid ≡ some u → Received msg c (one_sub suid msg h)
    reach k =
        subst (λ o. Received msg c (elim o [ none ↦ h | some x ↦ user_send_msg x msg h ])) (sym k)
          (user_send_msg-Received u msg h c m e)

apply_func-Delivers :
    (fs : Dict String ℕ) (msg : TopicMsg) (h : Hub) → Delivers h (apply_func fs msg h)
unfolding apply_func
apply_func-Delivers [] msg h = Delivers-refl h
apply_func-Delivers ((key, f) ∷ rest) msg h =
    Delivers-trans h (record h { calls = h.calls ++ (f, msg) ∷ [] }) _
      (record { users = refl; user_at = refl; closed = λ c. refl; received = λ m c r. r })
      (apply_func-Delivers rest msg _)

-- A round of `Start` delivers the message at the head of the queue to each client with an open
-- channel that a subscribed user of the hub lists.
pub deliver-Received :
    (h : Hub) (msg : TopicMsg) (rest : List TopicMsg) (topic : Topic) (suid : String) (t u c : ℕ)
    → h.queue ≡ msg ∷ rest
    → get h.topics msg.topic_id ≡ some topic
    → get topic.sub_users suid ≡ some t
    → get h.users suid ≡ some u
    → contains c (h.user_at u).app_clients ≡ true
    → (h.clients c).send_closed ≡ false
    → Received msg.msg c (deliver h)
unfolding deliver deliver_msg
deliver-Received h msg rest topic suid t u c eq et es eu m e =
    let h1 = record h { queue = rest } in
    let h2 = apply_func topic.sub_handlers msg h1 in
    let d = apply_func-Delivers topic.sub_handlers msg h1 in
    let got =
      subs-Received topic.sub_users msg.msg h2 suid t u c es (ap (λ x. get x suid) d.users ∙ eu)
        (ap (λ (f : ℕ → User). contains c (f u).app_clients) d.user_at ∙ m) (d.closed c ∙ e) in
    subst
      (λ (q : List TopicMsg).
        Received msg.msg c (elim q [ [] ↦ h | x ∷ r ↦ deliver_msg x (record h { queue = r }) ]))
      (sym eq)
      (subst
        (λ o. Received msg.msg c (elim o [
          | none ↦ h1
          | some x ↦ send_to_sub_user x.sub_users msg.msg (apply_func x.sub_handlers msg h1)
        ]))
        (sym et) got)
