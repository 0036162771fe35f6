-- ===== src/Ws/PubSub/Subscriptions.antt =====
-- Subscribing and unsubscribing in ws/pubsub.go: the user's side and the topic's side.
use aqi.Prelude.{
  ℕ, ◌≡◌, refl, sym, ap, ap₂, subst, ◌∙◌, String, Option, none, some, comparable_string, ◌==◌,
  ==_iff, ◌&&◌, nat_beq, arith, Option-cases, Bool-cases, inl, inr, ◌⊎◌, if◌then◌else◌,
}
use aqi.Prelude.Dict.{Dict, get, remove, get-put, get-remove, get-empty}
use aqi.Ws.Types.{Hub, Now, Topic, User}
use aqi.Ws.PubSub.{
  topic_or_new, init_topic, load_or_store, add_sub_topic, add_sub_user, subscribe, sub_func,
  remove_sub_user, unsub_topic, unsubscribe,
}

-- The topic's side of a subscription: when the user with this id subscribed.
abbrev pub since : Hub → String → String → Option ℕ
since h id suid = get (topic_or_new (get h.topics id)).sub_users suid

-- The user's side: the topic under this id.
abbrev pub own_topic : Hub → ℕ → String → Option String
own_topic h u id = get (h.user_at u).sub_topics id

topic-init_topic :
    (id j : String) (h : Hub)
    → topic_or_new (get (init_topic id h).topics j) ≡ topic_or_new (get h.topics j)
unfolding init_topic
topic-init_topic id j h = elim (Option-cases (get h.topics id)) [
  | inl e ↦
      ground (arith, e, get-put h.topics id j (topic_or_new none), comparable_string.equal_iff id j)
  | inr (t, e) ↦ ground (arith, e)
]

user_at-init_topic : (id : String) (h : Hub) → (init_topic id h).user_at ≡ h.user_at
unfolding init_topic
user_at-init_topic id h = elim (Option-cases (get h.topics id)) [
  | inl e ↦ ground (arith, e)
  | inr (t, e) ↦ ground (arith, e)
]

abbrev pub or_now : Option ℕ → ℕ → ℕ
or_now none t = t
or_now (some s) t = s

get-load_or_store :
    (d : Dict String ℕ) (k j : String) (v : ℕ)
    → get (load_or_store d k v) j ≡ (if k == j then some (or_now (get d k) v) else get d j)
unfolding load_or_store
get-load_or_store d k j v =
    ground
      (arith, get-put d k j v, comparable_string.equal_iff k j, comparable_string.equal_iff k k)

since-add_sub_user :
    (now : Now) (id : String) (u : ℕ) (h : Hub) (j s : String)
    → since (add_sub_user now id u h) j s ≡ (
        if id == j && (h.user_at u).suid == s
        then some (or_now (since h id (h.user_at u).suid) now.time)
        else since h j s)
unfolding add_sub_user
since-add_sub_user now id u h j s =
    let topic = topic_or_new (get h.topics id) in
    let subs = load_or_store topic.sub_users (h.user_at u).suid now.time in
    ground (
      arith,
      get-put h.topics id j (record topic { sub_users = subs }),
      get-load_or_store topic.sub_users (h.user_at u).suid s now.time,
      comparable_string.equal_iff id j,
    )

own_topic-add_sub_user :
    (now : Now) (id : String) (u : ℕ) (h : Hub) (w : ℕ) (j : String)
    → own_topic (add_sub_user now id u h) w j
      ≡ (if nat_beq u w && id == j then some id else own_topic h w j)
unfolding add_sub_user add_sub_topic
own_topic-add_sub_user now id u h w j = ground (arith, get-put (h.user_at u).sub_topics id j id)

-- `Sub` enters the subscription on the topic's side and on the user's, keeps the time of an earlier
-- one, and touches no other subscription.
pub subscribe_both :
    (now : Now) (id : String) (u : ℕ) (h : Hub)
    → ((j s : String)
        → since (subscribe now id u h) j s ≡ (
            if id == j && (h.user_at u).suid == s
            then some (or_now (since h id (h.user_at u).suid) now.time)
            else since h j s))
      × ((w : ℕ) (j : String)
          → own_topic (subscribe now id u h) w j
            ≡ (if nat_beq u w && id == j then some id else own_topic h w j))
unfolding subscribe
subscribe_both now id u h =
    let g = init_topic id h in
    let eu = user_at-init_topic id h in
    let same = λ (j s : String). ap (λ (t : Topic). get t.sub_users s) (topic-init_topic id j h) in
    (
      λ j s. cc (since-add_sub_user now id u g j s, same j s, same id (h.user_at u).suid, eu),
      λ w j.
          own_topic-add_sub_user now id u g w j
          ∙ (let own = ap (λ (f : ℕ → User). get (f w).sub_topics j) eu in ground (arith, own)),
    )

since-remove_sub_user :
    (id uid : String) (h : Hub) (j s : String)
    → since (remove_sub_user id uid h) j s ≡ (if id == j && uid == s then none else since h j s)
unfolding remove_sub_user
since-remove_sub_user id uid h j s = elim (Option-cases (get h.topics id)) [
  | inl e ↦
      let none_there = get-empty {V = ℕ} s in
      ground (arith, e, comparable_string.equal_iff id j, none_there)
  | inr (t, e) ↦ ground (
    arith,
    e,
    get-put h.topics id j (record t { sub_users = remove t.sub_users uid }),
    get-remove t.sub_users uid s,
    comparable_string.equal_iff id j,
  )
]

user_at-remove_sub_user :
    (id uid : String) (h : Hub) → (remove_sub_user id uid h).user_at ≡ h.user_at
unfolding remove_sub_user
user_at-remove_sub_user id uid h = elim (Option-cases (get h.topics id)) [
  | inl e ↦ ground (arith, e)
  | inr (t, e) ↦ ground (arith, e)
]

own_topic-unsub_topic :
    (id : String) (u : ℕ) (h : Hub) (w : ℕ) (j : String)
    → own_topic (unsub_topic id u h) w j
      ≡ (if nat_beq u w && id == j then none else own_topic h w j)
unfolding unsub_topic
own_topic-unsub_topic id u h w j = elim (Option-cases (get (h.user_at u).sub_topics id)) [
  | inl e ↦ elim (Bool-cases (nat_beq u w && id == j)) [
    | inl t ↦
        let uw : u ≡ w = ground arith in
        let ij : id ≡ j = (==_iff id j).0 (ground arith) in ground (arith, e, uw, ij)
    | inr f ↦ ground (arith, e, f)
  ]
  | inr (topic, e) ↦
      let eu = user_at-remove_sub_user topic (h.user_at u).suid h in
      let own = ap (λ (f : ℕ → User). get (f w).sub_topics j) eu in
      ground (arith, e, get-remove (h.user_at u).sub_topics id j, own)
]

since-unsub_topic :
    (id : String) (u : ℕ) (h : Hub) (j s : String)
    → (own_topic h u id ≡ none) ⊎ (own_topic h u id ≡ some id)
    → (since h id (h.user_at u).suid ≡ none)
    → since (unsub_topic id u h) j s ≡ since h j s
unfolding unsub_topic
since-unsub_topic id u h j s (inl e) gone = ground (arith, e)
since-unsub_topic id u h j s (inr e) gone =
    let law = since-remove_sub_user id (h.user_at u).suid h j s in
    elim (Bool-cases (id == j && (h.user_at u).suid == s)) [
      | inl t ↦
          let ij : id ≡ j = (==_iff id j).0 (ground arith) in
          let us : (h.user_at u).suid ≡ s = (==_iff (h.user_at u).suid s).0 (ground arith) in
          let n : since h j s ≡ none = ap₂ (since h) (sym ij) (sym us) ∙ gone in
          ground (arith, law, e, t, n)
      | inr f ↦ ground (arith, law, e, f)
    ]

-- `Unsub` of a topic that exists removes the subscription on both sides and no other, where the
-- user lists under the topic's id that topic or nothing.
pub unsubscribe_both :
    (id : String) (u : ℕ) (h : Hub) (t : Topic)
    → get h.topics id ≡ some t
    → (own_topic h u id ≡ none) ⊎ (own_topic h u id ≡ some id)
    → ((j s : String)
        → since (unsubscribe id u h) j s
          ≡ (if id == j && (h.user_at u).suid == s then none else since h j s))
      × ((w : ℕ) (j : String)
          → own_topic (unsubscribe id u h) w j
            ≡ (if nat_beq u w && id == j then none else own_topic h w j))
unfolding unsubscribe
unsubscribe_both id u h t e own =
    let g = remove_sub_user id (h.user_at u).suid h in
    let eu = user_at-remove_sub_user id (h.user_at u).suid h in
    let own' =
      subst
        (λ (f : ℕ → User). (get (f u).sub_topics id ≡ none) ⊎ (get (f u).sub_topics id ≡ some id))
        (sym eu) own in
    let both = (comparable_string.equal_iff id id).1 refl in
    let self = (comparable_string.equal_iff (h.user_at u).suid (h.user_at u).suid).1 refl in
    let removed : since g id (h.user_at u).suid ≡ none =
      ground
        (arith, since-remove_sub_user id (h.user_at u).suid h id (h.user_at u).suid, both, self) in
    let gone : since g id (g.user_at u).suid ≡ none =
      ap (λ (f : ℕ → User). since g id (f u).suid) eu ∙ removed in
    let it : unsubscribe id u h ≡ unsub_topic id u g = at_some e in
    (
      λ j s.
          ap (λ (x : Hub). since x j s) it
          ∙ since-unsub_topic id u g j s own' gone
          ∙ since-remove_sub_user id (h.user_at u).suid h j s,
      λ w j.
          ap (λ (x : Hub). own_topic x w j) it
          ∙ own_topic-unsub_topic id u g w j
          ∙ (let same = ap (λ (f : ℕ → User). get (f w).sub_topics j) eu in ground (arith, same)),
    )
  where
    at_some :
        get h.topics id ≡ some t
        → unsubscribe id u h ≡ unsub_topic id u (remove_sub_user id (h.user_at u).suid h)
    at_some e = rw (e, unsubscribe)

-- A topic keeps one handler: `SubFunc` on a topic that has a handler under its id changes no
-- topic's handlers, so the new function is never called.
pub sub_func_first_only :
    (id : String) (f g : ℕ) (h : Hub) (j : String)
    → get (topic_or_new (get h.topics id)).sub_handlers id ≡ some f
    → (topic_or_new (get (sub_func id g h).topics j)).sub_handlers
      ≡ (topic_or_new (get h.topics j)).sub_handlers
unfolding sub_func load_or_store
sub_func_first_only id f g h j has =
    let same = topic-init_topic id id h in
    let other = topic-init_topic id j h in
    let topic = topic_or_new (get (init_topic id h).topics id) in
    let has' : get topic.sub_handlers id ≡ some f =
      ap (λ (t : Topic). get t.sub_handlers id) same ∙ has in
    let kept : load_or_store topic.sub_handlers id g ≡ topic.sub_handlers = ground (arith, has') in
    ground (
      arith,
      get-put (init_topic id h).topics id j
          (record topic { sub_handlers = load_or_store topic.sub_handlers id g }),
      kept,
      same,
      other,
      comparable_string.equal_iff id j,
    )
