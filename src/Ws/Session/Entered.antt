-- ===== src/Ws/Session/Entered.antt =====
-- The hub behind `appLogin` of ws/user.go: the new client, the others, and the invariant.
use aqi.Prelude.{
  ℕ, ◌+◌, ◌≤◌, ◌<◌, ◌≡◌, refl, sym, ap, ap₂, ◌∙◌, true, false, String, [], ◌∷◌, ◌++◌, Option, none,
  some, comparable_string, comparable_nat, nat_beq, contains, contains-append, HasNoRepeats,
  HasNoRepeats-snoc, length, arith, Bool-cases, inl, inr,
}
use aqi.Prelude.Dict.{get}
use aqi.Ws.Types.{Client, Hub, user}
use aqi.Ws.Session.{find_app, enter, logged, app_client, app_login}
use aqi.Ws.Session.Clients.{ids, ids-append, ids-update, find_app_last}
use aqi.Ws.Session.Invariant.{IsConsistent, IsNew, listed}
use aqi.Ws.Session.Login.{LoggedIn, publish_frame}

-- The invariant after a login, and the client that the hub finds.
module _ (u : ℕ) (app : String) (c : ℕ) (h h' : Hub) (r : LoggedIn u app c h h') where
  kept_without : contains c (listed h u) ≡ false → contains c r.kept ≡ false
  kept_without n = elim (Bool-cases (contains c r.kept)) [
    | inl t ↦ absurd (let y = r.kept_listed c t in cc)
    | inr f ↦ f
  ]

  pub app_client-LoggedIn : contains c (listed h u) ≡ false → app_client h' u app ≡ some c
  unfolding app_client
  app_client-LoggedIn n =
      let apart : contains app (ids h'.clients r.kept) ≡ false =
        ap (λ f. contains app (ids f r.kept)) r.clients
        ∙ ap (contains app) (ids-update h.clients c _ r.kept (kept_without n))
        ∙ r.kept_apart in
      let own : (h'.clients c).app_id ≡ app =
        ap (λ (f : ℕ → Client). (f c).app_id) r.clients ∙ ground arith in
      let found : find_app h'.clients app (listed h' u) 0 ≡ some (0 + length r.kept, c) =
        ap (λ l. find_app h'.clients app l 0) r.lists
        ∙ find_app_last h'.clients app r.kept c 0 apart own in
      ground (arith, found)

  client_same : (d : ℕ) → nat_beq c d ≡ false → h'.clients d ≡ h.clients d
  client_same d n = ap (λ (f : ℕ → Client). f d) r.clients ∙ ground arith

  client_self : h'.clients c ≡ logged u app (h.clients c)
  client_self = ap (λ (f : ℕ → Client). f c) r.clients ∙ ground arith

  abbrev GoodClient : ℕ → ℕ → Type 0
  GoodClient w d =
      ((h'.clients d).user ≡ some w)
      × ((h'.clients d).is_login ≡ true)
      × ((h'.clients d).closed ≡ false)

  good_other :
      IsConsistent h
      → (w d : ℕ) → contains d (listed h w) ≡ true
      → nat_beq c d ≡ false
      → GoodClient w d
  good_other v w d m n = rw (client_same d n) (v.logged_in w d m)

  good_self : (h.clients c).closed ≡ false → GoodClient u c
  good_self o = rw client_self (refl, refl, o)

  good : IsConsistent h → IsNew h c → (w d : ℕ) → contains d (listed h' w) ≡ true → GoodClient w d
  good v new w d m = elim (Bool-cases (nat_beq u w)) [
    | inr f ↦
        let old : contains d (listed h w) ≡ true = ap (contains d) (sym (r.others w f)) ∙ m in
        elim (Bool-cases (nat_beq c d)) [
          | inl t ↦
              let cd : c ≡ d = ground arith in
              absurd (let no_c = new.unlisted w in let yes_c = rw (← cd) at old in cc)
          | inr n ↦ good_other v w d old n
        ]
    | inl t ↦
        let uw : u ≡ w = ground arith in
        let both : contains d (r.kept ++ c ∷ []) ≡ true =
          ap (contains d) (sym r.lists) ∙ ap (λ x. contains d (listed h' x)) uw ∙ m in
        elim (Bool-cases (nat_beq c d)) [
          | inl t' ↦ let cd : c ≡ d = ground arith in rw (← uw, ← cd) (good_self new.still_open)
          | inr n ↦
              let k : contains d r.kept ≡ true =
                ground (arith, contains-append d r.kept (c ∷ []), both) in
              rw (← uw) (good_other v u d (r.kept_listed d k) n)
        ]
  ]

  once_per_app : IsConsistent h → IsNew h c → (w : ℕ) → HasNoRepeats (ids h'.clients (listed h' w))
  once_per_app v new w = elim (Bool-cases (nat_beq u w)) [
    | inr f ↦
        let same : ids h'.clients (listed h' w) ≡ ids h.clients (listed h w) =
          ap₂ ids r.clients (r.others w f)
          ∙ ids-update h.clients c _ (listed h w) (new.unlisted w) in
        rw same (v.one_per_app w)
    | inl t ↦
        let uw : u ≡ w = ground arith in
        let same : ids h'.clients (listed h' w) ≡ ids h.clients r.kept ++ app ∷ [] =
          ap (λ x. ids h'.clients (listed h' x)) (sym uw)
          ∙ ap (ids h'.clients) r.lists
          ∙ ids-append h'.clients r.kept (c ∷ [])
          ∙ ap₂ (λ l (cl : Client). l ++ cl.app_id ∷ [])
              (ap (λ f. ids f r.kept) r.clients
                ∙ ids-update h.clients c _ r.kept (kept_without (new.unlisted u)))
              client_self in
        rw same (HasNoRepeats-snoc (ids h.clients r.kept) app r.kept_once r.kept_apart)
  ]

  pub LoggedIn-IsConsistent : IsConsistent h → u < h.next_user → IsNew h c → IsConsistent h'
  LoggedIn-IsConsistent v created new = record {
    logged_in = good v new;
    one_per_app = once_per_app v new;
    stored = λ uid w e.
        let (is, below) = v.stored uid w (ap (λ d. get d uid) (sym r.users) ∙ e) in
        (r.suid w ∙ is, rw r.next_user below);
    uncreated = λ w le.
        let far : h.next_user ≤ w = rw r.next_user at le in
        r.others w (ground (arith, created)) ∙ v.uncreated w far;
  }

guests-enter : (u c : ℕ) (o : Option (ℕ × ℕ)) (h : Hub) → (enter u c o h).guests ≡ h.guests
unfolding enter
guests-enter u c none h = refl
guests-enter u c (some (i, old)) h = ground arith

pub guests-app_login :
    (u : ℕ) (app : String) (c : ℕ) (h : Hub) → (app_login u app c h).guests ≡ h.guests
unfolding app_login
guests-app_login u app c h =
    (publish_frame "login" (user u) _).5
    ∙ guests-enter u c (find_app h.clients app (listed h u) 0) _
