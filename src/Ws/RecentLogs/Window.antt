-- ===== src/Ws/RecentLogs/Window.antt =====
-- The ring holds the last lines of the log, oldest first.
use aqi.Prelude.{
  ℕ, zero, suc, ◌+◌, ◌-◌, ◌%◌, ◌≤◌, ◌<◌, ◌≡◌, ◌≢◌, ◌⊎◌, refl, ap, ap₂, ◌∙◌, sym, String, List, [],
  ◌∷◌, ◌++◌, some, get_elem?, set, drop, length, length-append, nat_beq, ltb, Bool-cases, inl, inr,
  arith,
}
use mathlib.Core.Option
use mathlib.Core.List.{append_assoc, append-nil}
use aqi.Ws.RecentLogs.{Recent, capacity, none_yet, push, push_all, read, copy_from, get_recent_logs}

get_elem?-set_self :
    (l : List String) (i : ℕ) (x : String) → i < length l → get_elem? (set l i x) i ≡ some x
get_elem?-set_self [] i x h = absurd (omega arith)
get_elem?-set_self (y ∷ l) zero x h = refl
get_elem?-set_self (y ∷ l) (suc i) x h = get_elem?-set_self l i x (omega arith)

get_elem?-set_ne :
    (l : List String) (i j : ℕ) (x : String) → i ≢ j → get_elem? (set l i x) j ≡ get_elem? l j
get_elem?-set_ne [] i j x h = refl
get_elem?-set_ne (y ∷ l) zero zero x h = absurd (h refl)
get_elem?-set_ne (y ∷ l) zero (suc j) x h = refl
get_elem?-set_ne (y ∷ l) (suc i) zero x h = refl
get_elem?-set_ne (y ∷ l) (suc i) (suc j) x h = get_elem?-set_ne l i j x (λ e. h (ap suc e))

length-set : (l : List String) (i : ℕ) (x : String) → length (set l i x) ≡ length l
length-set [] i x = refl
length-set (y ∷ l) zero x = refl
length-set (y ∷ l) (suc i) x = ap suc (length-set l i x)

get_elem?-append_left :
    (l : List String) (x : String) (i : ℕ)
    → i < length l
    → get_elem? (l ++ x ∷ []) i ≡ get_elem? l i
get_elem?-append_left [] x i h = absurd (omega arith)
get_elem?-append_left (y ∷ l) x zero h = refl
get_elem?-append_left (y ∷ l) x (suc i) h = get_elem?-append_left l x i (omega arith)

get_elem?-append_last : (l : List String) (x : String) → get_elem? (l ++ x ∷ []) (length l) ≡ some x
get_elem?-append_last [] x = refl
get_elem?-append_last (y ∷ l) x = get_elem?-append_last l x

-- A ring after the lines `history`: each of the last lines stands at its number modulo 100.
pub record Holds (history : List String) (r : Recent) : Type 0 where
  pub array : length r.logs ≡ capacity
  pub idx : r.idx ≡ length history % capacity
  pub count_full : capacity ≤ length history → r.count ≡ capacity
  pub count_all : length history ≤ capacity → r.count ≡ length history
  pub at :
      (j : ℕ)
      → j < length history
      → length history ≤ j + capacity
      → get_elem? r.logs (j % capacity) ≡ get_elem? history j

pub Holds-none_yet : Holds [] none_yet
Holds-none_yet = record {
  array = refl;
  idx = refl;
  count_full = λ h. absurd (omega arith);
  count_all = λ h. refl;
  at = λ j h. absurd (omega arith);
}

last_or_before : (j n : ℕ) → j < n + 1 → (j ≡ n) ⊎ (j < n)
last_or_before j n h = elim (Bool-cases (ltb j n)) [
  | inl t ↦ inr (ground arith)
  | inr f ↦ inl (ground arith)
]

at-push :
    (history : List String) (r : Recent) (line : String)
    → Holds history r
    → (j : ℕ) → j < length (history ++ line ∷ [])
    → length (history ++ line ∷ []) ≤ j + capacity
    → (j ≡ length history) ⊎ (j < length history)
    → get_elem? (push line r).logs (j % capacity) ≡ get_elem? (history ++ line ∷ []) j
unfolding push
at-push history r line h j below near (inl last) =
    let slot : j % capacity ≡ r.idx = omega (arith, h.idx) in
    rw (slot, last)
      (get_elem?-set_self r.logs r.idx line (omega (arith, h.idx, h.array))
        ∙ sym (get_elem?-append_last history line))
at-push history r line h j below near (inr before) =
    let len = length-append history (line ∷ []) in
    get_elem?-set_ne r.logs r.idx (j % capacity) line (omega (arith, h.idx, len))
    ∙ h.at j before (omega (arith, len))
    ∙ sym (get_elem?-append_left history line j before)

Holds-push :
    (history : List String) (r : Recent) (line : String)
    → Holds history r
    → Holds (history ++ line ∷ []) (push line r)
unfolding push
Holds-push history r line h = record {
  array = length-set r.logs r.idx line ∙ h.array;
  idx = omega (arith, len, h.idx);
  count_full = λ full. ground (arith, len, h.count_full, h.count_all);
  count_all = λ few. ground (arith, len, h.count_full, h.count_all);
  at = λ j below near.
      at-push history r line h j (below) near
        (last_or_before j (length history) (omega (arith, len)));
}
  where
    len : length (history ++ line ∷ []) ≡ length history + 1
    len = length-append history (line ∷ [])

Holds-push_all :
    (history lines : List String) (r : Recent)
    → Holds history r
    → Holds (history ++ lines) (push_all lines r)
unfolding push_all
Holds-push_all history [] r h = rw append-nil h
Holds-push_all history (line ∷ lines) r h =
    rw (append_assoc history (line ∷ []) lines) at
      (Holds-push_all (history ++ line ∷ []) lines (push line r) (Holds-push history r line h))

drop_step :
    (l : List String) (k : ℕ)
    → k < length l
    → drop k l ≡ Option.get_or (get_elem? l k) "" ∷ drop (suc k) l
drop_step [] k h = absurd (omega arith)
drop_step (x ∷ []) zero h = refl
drop_step (x ∷ y ∷ l) zero h = refl
drop_step (x ∷ l) (suc k) h = drop_step l k (omega arith)

drop_end : (l : List String) → drop (length l) l ≡ []
drop_end [] = refl
drop_end (x ∷ l) = drop_end l

module _ (history : List String) (r : Recent) (h : Holds history r) where
  count_le : (r.count ≤ capacity) × (r.count ≤ length history)
  count_le = elim (Bool-cases (ltb (length history) capacity)) [
    | inl t ↦
        let short : length history ≤ capacity = ground arith in
        let c = h.count_all short in omega (arith, c, short)
    | inr f ↦
        let full : capacity ≤ length history = ground arith in
        let c = h.count_full full in omega (arith, c, full)
  ]

  window_start :
      (length history - r.count + 0 ≡ length history - capacity)
      × (r.count ≡ 0 → length history - capacity ≡ length history)
  window_start = elim (Bool-cases (ltb (length history) capacity)) [
    | inl t ↦
        let short : length history ≤ capacity = ground arith in
        let c = h.count_all short in (omega (arith, c, short), λ z. omega (arith, c, short, z))
    | inr f ↦
        let full : capacity ≤ length history = ground arith in
        let c = h.count_full full in (omega (arith, c, full), λ z. omega (arith, c, full, z))
  ]

  copy_from-drop :
      (i n : ℕ)
      → i + n ≡ r.count
      → copy_from r.logs ((r.idx + capacity - r.count) % capacity) i n
        ≡ drop (length history - r.count + i) history
  unfolding copy_from
  copy_from-drop i zero e =
      let (_, few) = count_le in
      let end : length history - r.count + i ≡ length history = omega (arith, few) in
      rw end (sym (drop_end history))
  copy_from-drop i (suc n) e =
      let (small, few) = count_le in
      let k = length history - r.count + i in
      let below : k < length history = omega (arith, e, few) in
      let slot : ((r.idx + capacity - r.count) % capacity + i) % capacity ≡ k % capacity =
        omega (arith, e, small, few, h.idx) in
      let item = h.at k below (omega (arith, e, small, few)) in
      let next : length history - r.count + (i + 1) ≡ suc k = omega (arith, e, few) in
      ap₂ (λ x l. x ∷ l) (ap (read r.logs) slot ∙ ap (λ o. Option.get_or o "") item)
        (copy_from-drop (i + 1) n (omega (arith, e)) ∙ ap (λ j. drop j history) next)
      ∙ sym (drop_step history k below)

  get_recent_logs-drop : get_recent_logs r ≡ drop (length history - capacity) history
  unfolding get_recent_logs
  get_recent_logs-drop = elim (Bool-cases (nat_beq r.count 0)) [
    | inl t ↦
        rw t (sym (ap (λ j. drop j history) (window_start.1 (ground arith)) ∙ drop_end history))
    | inr f ↦
        rw f (copy_from-drop 0 r.count (omega arith) ∙ ap (λ j. drop j history) window_start.0)
  ]

-- After any lines `GetRecentLogs` returns the last 100 of them, or all if there are fewer, oldest
-- first.
pub get_recent_logs-push_all :
    (lines : List String)
    → get_recent_logs (push_all lines none_yet) ≡ drop (length lines - capacity) lines
get_recent_logs-push_all lines =
    get_recent_logs-drop lines (push_all lines none_yet)
      (Holds-push_all [] lines none_yet Holds-none_yet)
