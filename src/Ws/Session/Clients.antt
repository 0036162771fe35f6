-- ===== src/Ws/Session/Clients.antt =====
-- The client list of a user in ws/user.go: searching it, and deleting from it.
use aqi.Prelude.{
  ℕ, zero, suc, ◌+◌, ◌≡◌, refl, ap, true, false, String, List, [], ◌∷◌, ◌++◌, none, some,
  Comparable, comparable_string, comparable_nat, ◌==◌, ==_iff, contains, HasNoRepeats, length,
  arith, Bool-cases, inl, inr,
}
use aqi.Ws.Types.{Client, update}
use aqi.Ws.Session.{delete_at, find_app}

-- The app ids of the clients in a list.
abbrev pub ids : (ℕ → Client) → List ℕ → List String
ids heap [] = []
ids heap (c ∷ cs) = (heap c).app_id ∷ ids heap cs

pub ids-append :
    (heap : ℕ → Client) (cs ds : List ℕ) → ids heap (cs ++ ds) ≡ ids heap cs ++ ids heap ds
ids-append heap [] ds = refl
ids-append heap (c ∷ cs) ds = ap (λ l. (heap c).app_id ∷ l) (ids-append heap cs ds)

pub ids-update :
    (heap : ℕ → Client) (c : ℕ) (v : Client) (cs : List ℕ)
    → contains c cs ≡ false
    → ids (update heap c v) cs ≡ ids heap cs
ids-update heap c v [] h = refl
ids-update heap c v (d ∷ cs) h = ground (arith, ids-update heap c v cs)

module _ {ℓ} {A : Type ℓ} ⦃e : Comparable A⦄ where
  pub contains-delete_at :
      (x : A) (i : ℕ) (xs : List A) → contains x (delete_at i xs) ≡ true → contains x xs ≡ true
  contains-delete_at x i [] h = h
  contains-delete_at x zero (y ∷ xs) h = ground arith
  contains-delete_at x (suc i) (y ∷ xs) h = ground (arith, contains-delete_at x i xs)

  pub contains-delete_at-false :
      (x : A) (i : ℕ) (xs : List A) → contains x xs ≡ false → contains x (delete_at i xs) ≡ false
  contains-delete_at-false x i [] h = h
  contains-delete_at-false x zero (y ∷ xs) h = ground arith
  contains-delete_at-false x (suc i) (y ∷ xs) h = ground (arith, contains-delete_at-false x i xs)

  pub delete_at-HasNoRepeats :
      (i : ℕ) (xs : List A) → HasNoRepeats xs → HasNoRepeats (delete_at i xs)
  delete_at-HasNoRepeats i [] h = h
  delete_at-HasNoRepeats zero (y ∷ xs) h = h.1
  delete_at-HasNoRepeats (suc i) (y ∷ xs) h =
      (contains-delete_at-false y i xs h.0, delete_at-HasNoRepeats i xs h.1)

pub ids-delete_at :
    (heap : ℕ → Client) (i : ℕ) (cs : List ℕ)
    → ids heap (delete_at i cs) ≡ delete_at i (ids heap cs)
ids-delete_at heap i [] = refl
ids-delete_at heap zero (c ∷ cs) = refl
ids-delete_at heap (suc i) (c ∷ cs) = ap (λ l. (heap c).app_id ∷ l) (ids-delete_at heap i cs)

pub find_app-none :
    (heap : ℕ → Client) (app : String) (cs : List ℕ) (i : ℕ)
    → find_app heap app cs i ≡ none
    → contains app (ids heap cs) ≡ false
unfolding find_app
find_app-none heap app [] i h = refl
find_app-none heap app (c ∷ cs) i h = ground (
  arith,
  find_app-none heap app cs (i + 1),
  comparable_string.equal_iff (heap c).app_id app,
  comparable_string.equal_iff app (heap c).app_id,
)

-- What a search that hits says of its list.
pub record Hit (heap : ℕ → Client) (app : String) (cs : List ℕ) (i k a : ℕ) : Type 0 where
  pub at : ℕ
  pub offset : k ≡ i + at
  pub listed : contains a cs ≡ true
  pub same_app : (heap a).app_id ≡ app
  pub no_other : HasNoRepeats (ids heap cs) → contains app (delete_at at (ids heap cs)) ≡ false

pub find_app-Hit :
    (heap : ℕ → Client) (app : String) (cs : List ℕ) (i k a : ℕ)
    → find_app heap app cs i ≡ some (k, a)
    → Hit heap app cs i k a
unfolding find_app
find_app-Hit heap app [] i k a h = cc
find_app-Hit heap app (c ∷ cs) i k a h = elim (Bool-cases ((heap c).app_id == app)) [
  | inl t ↦
      let here : i ≡ k = ground arith in
      let it : c ≡ a = ground arith in
      let ids_eq : (heap c).app_id ≡ app = (==_iff (heap c).app_id app).0 t in
      record {
        at = 0;
        offset = omega arith;
        listed = ground (arith, it);
        same_app = rw (← it) ids_eq;
        no_other = λ n. rw (← ids_eq) n.0;
      }
  | inr f ↦
      let hit = find_app-Hit heap app cs (i + 1) k a (ground arith) in
      record {
        at = suc hit.at;
        offset = omega (arith, hit.offset);
        listed = ground (arith, hit.listed);
        same_app = hit.same_app;
        no_other = λ n. ground (
          arith,
          hit.no_other n.1,
          comparable_string.equal_iff (heap c).app_id app,
          comparable_string.equal_iff app (heap c).app_id,
        );
      }
]

pub find_app_last :
    (heap : ℕ → Client) (app : String) (cs : List ℕ) (c i : ℕ)
    → contains app (ids heap cs) ≡ false
    → (heap c).app_id ≡ app
    → find_app heap app (cs ++ c ∷ []) i ≡ some (i + length cs, c)
unfolding find_app
find_app_last heap app [] c i n e =
    let t : ((heap c).app_id == app) ≡ true = (==_iff (heap c).app_id app).1 e in ground (arith, t)
find_app_last heap app (d ∷ cs) c i n e = ground (
  arith,
  find_app_last heap app cs c (i + 1),
  comparable_string.equal_iff (heap d).app_id app,
  comparable_string.equal_iff app (heap d).app_id,
)
