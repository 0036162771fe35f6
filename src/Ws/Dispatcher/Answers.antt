-- ===== src/Ws/Dispatcher/Answers.antt =====
-- When `Dispatcher` (ws/dispatcher.go) runs the handlers of an action, and what it leaves alone.
use aqi.Prelude.{
  ℕ, ◌≡◌, ◌≢◌, refl, subst, sym, ap, ◌∙◌, Bool, true, false, not, ◌&&◌, List, [], ◌∷◌, ◌++◌, Option,
  none, some, map, comparable_string, comparable_nat, nat_beq, ◌==◌, if◌then◌else◌, arith,
}
use aqi.Ws.Types.{Action, Client, Hub, Now, set_client, update}
use aqi.Ws.Client.{send_msg}
use aqi.Ws.Chain.{Handler, run_chain}
use aqi.Ws.Router.{Routing, handlers}
use aqi.Ws.Dispatcher.{
  Request, Dispatched, answered, ran, client_ban, touch, run_handlers, dispatch, pong, ban_notice,
  not_supported,
}

abbrev pub is_empty {ℓ} : {A : Type ℓ} → List A → Bool
is_empty [] = true
is_empty (x ∷ xs) = false

abbrev pub is_some {ℓ} : {A : Type ℓ} → Option A → Bool
is_some none = false
is_some (some a) = true

abbrev pub did_run : Dispatched → Bool
did_run answered = false
did_run (ran o) = true

-- Another client, the users and the topics are what they were.
abbrev Others : ℕ → Hub → Hub → Type 0
Others d h' h = (h'.clients d ≡ h.clients d) × (h'.user_at ≡ h.user_at) × (h'.topics ≡ h.topics)

send_msg-Others : (c d : ℕ) (m : Action) (h : Hub) → d ≢ c → Others d (send_msg c m h) h
unfolding send_msg
send_msg-Others c d m h apart = go (h.clients c).send_closed
  where
    go :
        (b : Bool)
        → Others d
            (if b
              then record h { disconnect = h.disconnect ++ c ∷ [] }
              else set_client c (record (h.clients c) { send = (h.clients c).send ++ m ∷ [] }) h)
            h
    go true = (refl, refl, refl)
    go false =
        let e : nat_beq c d ≡ false = ground (arith, apart) in (rw (e, update) refl, refl, refl)

set_client-Others : (c d : ℕ) (cl : Client) (h : Hub) → d ≢ c → Others d (set_client c cl h) h
set_client-Others c d cl h apart =
    let e : nat_beq c d ≡ false = ground (arith, apart) in (rw (e, update) refl, refl, refl)

heartbeat_sent :
    (c : ℕ) (m : Action) (h : Hub)
    → ((send_msg c m h).clients c).last_heartbeat_time ≡ (h.clients c).last_heartbeat_time
unfolding send_msg
heartbeat_sent c m h = go (h.clients c).send_closed
  where
    go :
        (b : Bool)
        → ((if b
              then record h { disconnect = h.disconnect ++ c ∷ [] }
              else set_client c
                  (record (h.clients c) { send = (h.clients c).send ++ m ∷ [] })
                  h).clients
            c).last_heartbeat_time
          ≡ (h.clients c).last_heartbeat_time
    go true = refl
    go false = let e : nat_beq c c ≡ true = ground arith in rw (e, update) refl

heartbeat_set :
    (c : ℕ) (cl : Client) (h : Hub)
    → ((set_client c cl h).clients c).last_heartbeat_time ≡ cl.last_heartbeat_time
heartbeat_set c cl h = let e : nat_beq c c ≡ true = ground arith in rw (e, update) refl

touch_heartbeat : (t : ℕ) (cl : Client) → t ≢ 0 → (touch t cl).last_heartbeat_time ≢ 0
unfolding touch
touch_heartbeat t cl h = ground (arith, h)

module _ (ops : ℕ → Handler) (f : ℕ) (now : Now) (w : Routing) (req : Request) (c : ℕ)
    (h : Hub) where
  -- `dispatch` from its three tests.
  abbrev pub branch : Bool → Option ℕ → List ℕ → Hub × Dispatched
  branch true o l = (
    send_msg c pong (set_client c (record (h.clients c) { last_heartbeat_time = now.time }) h),
    answered,
  )
  branch false (some t) l = (send_msg c (ban_notice t) h, answered)
  branch false none [] = (
    send_msg c (not_supported req.action) (set_client c (touch now.time (h.clients c)) h),
    answered,
  )
  branch false none (x ∷ xs) =
      (set_client c (touch now.time (h.clients c)) h, ran (run_chain f (map ops (x ∷ xs))))

  pub dispatch-branch :
      dispatch ops f now w req c h
      ≡ branch (req.action == "ping") (client_ban c h) (handlers req.action w)
  unfolding dispatch run_handlers
  dispatch-branch = go (req.action == "ping") (client_ban c h) (handlers req.action w)
    where
      go :
          (b : Bool) (o : Option ℕ) (l : List ℕ)
          → (if b
              then (
                send_msg c pong
                    (set_client c (record (h.clients c) { last_heartbeat_time = now.time }) h),
                answered,
              )
              else elim o [
                | some t ↦ (send_msg c (ban_notice t) h, answered)
                | none ↦
                    run_handlers ops f req.action c l
                      (set_client c (touch now.time (h.clients c)) h)
              ])
            ≡ branch b o l
      go true o l = refl
      go false (some t) l = refl
      go false none [] = refl
      go false none (x ∷ xs) = refl

  -- The handlers run exactly if the request is no ping, the client's user is not banned and the
  -- action has handlers.
  pub dispatch-did_run : did_run (dispatch ops f now w req c h).1 ≡ (
      not (req.action == "ping")
      && (not (is_some (client_ban c h)) && not (is_empty (handlers req.action w))))
  dispatch-did_run =
      ap (λ r. did_run r.1) dispatch-branch
      ∙ go (req.action == "ping") (client_ban c h) (handlers req.action w)
    where
      go :
          (b : Bool) (o : Option ℕ) (l : List ℕ)
          → did_run (branch b o l).1 ≡ (not b && (not (is_some o) && not (is_empty l)))
      go true o l = refl
      go false (some t) l = refl
      go false none [] = refl
      go false none (x ∷ xs) = refl

  -- After a request of a client whose user is not banned, its heartbeat is not zero.
  pub dispatch_heartbeat :
      now.time ≢ 0
      → client_ban c h ≡ none
      → ((dispatch ops f now w req c h).0.clients c).last_heartbeat_time ≢ 0
  dispatch_heartbeat running free =
      subst (λ r. (r.0.clients c).last_heartbeat_time ≢ 0) (sym dispatch-branch)
        (subst
          (λ o.
            ((branch (req.action == "ping") o (handlers req.action w)).0.clients
              c).last_heartbeat_time
            ≢ 0)
          (sym free) (go (req.action == "ping") (handlers req.action w)))
    where
      go : (b : Bool) (l : List ℕ) → ((branch b none l).0.clients c).last_heartbeat_time ≢ 0
      go true l e = running (
          sym (
            heartbeat_sent c pong _
            ∙ heartbeat_set c (record (h.clients c) { last_heartbeat_time = now.time }) h)
          ∙ e)
      go false [] e = touch_heartbeat now.time (h.clients c) running (
          sym (
            heartbeat_sent c (not_supported req.action) _
            ∙ heartbeat_set c (touch now.time (h.clients c)) h)
          ∙ e)
      go false (x ∷ xs) e =
          touch_heartbeat now.time (h.clients c) running
            (sym (heartbeat_set c (touch now.time (h.clients c)) h) ∙ e)

  -- A request changes no other client, no user and no topic before the handlers run.
  pub dispatch_others :
      (d : ℕ)
      → d ≢ c
      → (let h' = (dispatch ops f now w req c h).0 in
          (h'.clients d ≡ h.clients d) × (h'.user_at ≡ h.user_at) × (h'.topics ≡ h.topics))
  dispatch_others d apart =
      subst (λ r. Others d r.0 h) (sym dispatch-branch)
        (go (req.action == "ping") (client_ban c h) (handlers req.action w))
    where
      sent : (m : Action) (cl : Client) → Others d (send_msg c m (set_client c cl h)) h
      sent m cl =
          let (a, b, e) = send_msg-Others c d m (set_client c cl h) apart in
          let (a', b', e') = set_client-Others c d cl h apart in (a ∙ a', b ∙ b', e ∙ e')

      go : (b : Bool) (o : Option ℕ) (l : List ℕ) → Others d (branch b o l).0 h
      go true o l = sent pong (record (h.clients c) { last_heartbeat_time = now.time })
      go false (some t) l = send_msg-Others c d (ban_notice t) h apart
      go false none [] = sent (not_supported req.action) (touch now.time (h.clients c))
      go false none (x ∷ xs) = set_client-Others c d (touch now.time (h.clients c)) h apart
