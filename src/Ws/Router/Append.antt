-- ===== src/Ws/Router/Append.antt =====
-- Go's `append` on shared arrays, as ws/router.go uses it.
use mathlib.Core.List.{append-nil}
use aqi.Prelude.{
  sym, subst, ℕ, zero, suc, ◌+◌, ◌≤◌, ◌<◌, ◌≡◌, ◌≢◌, ◌⊎◌, inl, inr, refl, ap, ◌∙◌, true, false,
  List, [], ◌∷◌, ◌++◌, Option, none, some, length, take, drop, leb, length-append, nat_beq,
  Bool-cases, arith,
}
use aqi.Ws.Types.{update}
use aqi.Ws.Router.{Slice, Arrays, elements, write, append}

pub le_or_lt : (a b : ℕ) → (a ≤ b) ⊎ (b < a)
le_or_lt a b = elim (Bool-cases (leb a b)) [
  | inl h ↦ inl (ground (arith, h))
  | inr h ↦ inr (ground (arith, h))
]

module _ {ℓ} {A : Type ℓ} where
  -- A slice stands on an array that exists, on cells that were written.
  abbrev pub IsValid : Arrays A → Slice → Type 0
  IsValid m s = elim s.array [
    | none ↦ (s.len ≡ 0) × (s.cap ≡ 0)
    | some a ↦ (s.len ≤ length (m.cells a)) × (a < m.next)
  ]

  take_all : (xs ys : List A) → take (length xs) (xs ++ ys) ≡ xs
  take_all [] ys = refl
  take_all (x ∷ xs) ys = ap (λ l. x ∷ l) (take_all xs ys)

  take-suc : (n k : ℕ) (x : A) (l : List A) → n ≡ suc k → take n (x ∷ l) ≡ x ∷ take k l
  take-suc n k x l e = rw e refl

  take-append :
      (n : ℕ) (l xs ys : List A)
      → n ≤ length l
      → take (n + length xs) (take n l ++ (xs ++ ys)) ≡ take n l ++ xs
  take-append zero l xs ys h =
      let e : 0 + length xs ≡ length xs = omega arith in rw e (take_all xs ys)
  take-append (suc n) [] xs ys h = absurd (omega (arith, h))
  take-append (suc n) (x ∷ l) xs ys h =
      take-suc (suc n + length xs) (n + length xs) x (take n l ++ (xs ++ ys)) (omega arith)
      ∙ ap (λ t. x ∷ t) (take-append n l xs ys (omega (arith, h)))

  take-take : (n k : ℕ) (l xs : List A) → n ≤ k → k ≤ length l → take n (take k l ++ xs) ≡ take n l
  take-take zero k l xs h g = refl
  take-take (suc n) zero l xs h g = absurd (omega (arith, h))
  take-take (suc n) (suc k) [] xs h g = absurd (omega (arith, g))
  take-take (suc n) (suc k) (x ∷ l) xs h g =
      ap (λ t. x ∷ t) (take-take n k l xs (omega (arith, h)) (omega (arith, g)))

  length-drop : (n : ℕ) (l : List A) → length l ≤ n + length (drop n l)
  length-drop zero l = omega arith
  length-drop (suc n) [] = omega arith
  length-drop (suc n) (x ∷ l) = omega (arith, length-drop n l)

  length-take : (n : ℕ) (l : List A) → n ≤ length l → length (take n l) ≡ n
  length-take zero l h = refl
  length-take (suc n) [] h = absurd (omega (arith, h))
  length-take (suc n) (x ∷ l) h = ap suc (length-take n l (omega (arith, h)))

  length-write :
      (n : ℕ) (old xs : List A)
      → n ≤ length old
      → (length old ≤ length (take n old ++ (xs ++ drop (n + length xs) old)))
        × (n + length xs ≤ length (take n old ++ (xs ++ drop (n + length xs) old)))
  length-write n old xs h =
      let rest = drop (n + length xs) old in
      let a = length-append (take n old) (xs ++ rest) in
      let b = length-append xs rest in
      let c = length-take n old h in
      let d = length-drop (n + length xs) old in (omega (arith, a, b, c, d), omega (arith, a, b, c))

  update_same : (f : ℕ → List A) (a : ℕ) (v : List A) → update f a v a ≡ v
  update_same f a v = let e : nat_beq a a ≡ true = ground arith in rw (e, update) refl

  pub update_other : (f : ℕ → List A) (a b : ℕ) (v : List A) → a ≢ b → update f a v b ≡ f b
  update_other f a b v h = let e : nat_beq a b ≡ false = ground (arith, h) in rw (e, update) refl

  -- `append` where the capacity is enough, and where it is not.
  pub append_in_place :
      (grow : ℕ → ℕ → ℕ) (s : Slice) (xs : List A) (m : Arrays A)
      → s.len + length xs ≤ s.cap
      → append grow s xs m ≡ (record s { len = s.len + length xs }, write s.array s.len xs m)
  append_in_place grow s xs m h =
      let e : leb (s.len + length xs) s.cap ≡ true = ground (arith, h) in rw (e, append) refl

  pub append_grown :
      (grow : ℕ → ℕ → ℕ) (s : Slice) (xs : List A) (m : Arrays A)
      → s.cap < s.len + length xs
      → append grow s xs m ≡ (
        record {
          array = some m.next;
          len = s.len + length xs;
          cap = grow s.cap (s.len + length xs);
        },
        record m { cells = update m.cells m.next (elements m s ++ xs); next = m.next + 1 },
      )
  append_grown grow s xs m h =
      let e : leb (s.len + length xs) s.cap ≡ false = ground (arith, h) in rw (e, append) refl

  length-elements : (m : Arrays A) (s : Slice) → IsValid m s → length (elements m s) ≡ s.len
  length-elements m s v = go s.array s.len s.cap v
    where
      go :
          (o : Option ℕ) (n c : ℕ)
          → IsValid m (record { array = o; len = n; cap = c })
          → length (elements m (record { array = o; len = n; cap = c })) ≡ n
      go none n c (h, k) = omega (arith, h)
      go (some a) n c (h, k) = length-take n (m.cells a) h

  in_place_elements :
      (o : Option ℕ) (n c : ℕ) (xs : List A) (m : Arrays A)
      → IsValid m (record { array = o; len = n; cap = c })
      → n + length xs ≤ c
      → elements (write o n xs m) (record { array = o; len = n + length xs; cap = c })
        ≡ elements m (record { array = o; len = n; cap = c }) ++ xs
  in_place_elements none n c [] m (h, k) room = refl
  in_place_elements none n c (x ∷ xs) m (h, k) room = absurd (omega (arith, h, k, room))
  in_place_elements (some a) n c xs m (h, k) room =
      let old : List A = m.cells a in
      ap (take (n + length xs))
        (update_same m.cells a (take n old ++ (xs ++ drop (n + length xs) old)))
      ∙ take-append n old xs (drop (n + length xs) old) h

  grown_elements :
      (n next : ℕ) (cells : ℕ → List A) (l xs : List A)
      → length l ≡ n
      → take (n + length xs) (update cells next (l ++ xs) next) ≡ l ++ xs
  grown_elements n next cells l xs h =
      let len : n + length xs ≡ length (l ++ xs) = omega (arith, length-append l xs, h) in
      ap (take (n + length xs)) (update_same cells next (l ++ xs))
      ∙ ap (λ k. take k (l ++ xs)) len
      ∙ ap (take (length (l ++ xs))) (sym (append-nil (l ++ xs)))
      ∙ take_all (l ++ xs) []

  write_keeps :
      (o p : Option ℕ) (n c k d : ℕ) (xs : List A) (m : Arrays A)
      → IsValid m (record { array = o; len = n; cap = c })
      → IsValid m (record { array = p; len = k; cap = d })
      → (p ≡ o → k ≤ n)
      → (elements (write o n xs m) (record { array = p; len = k; cap = d })
          ≡ elements m (record { array = p; len = k; cap = d }))
        × IsValid (write o n xs m) (record { array = p; len = k; cap = d })
  write_keeps none p n c k d xs m v w h = (refl, w)
  write_keeps (some a) none n c k d xs m v w h = (refl, w)
  write_keeps (some a) (some b) n c k d xs m v w h = elim (le_or_lt a b) [
    | inl low ↦ elim (le_or_lt b a) [
      | inl up ↦
          let same : a ≡ b = omega (arith, low, up) in
          let short : k ≤ n = h (ap some (sym same)) in
          let old : List A = m.cells a in
          let new : List A = take n old ++ (xs ++ drop (n + length xs) old) in
          let cell : update m.cells a new b ≡ new =
            ap (update m.cells a new) (sym same) ∙ update_same m.cells a new in
          (
            ap (take k) cell
                ∙ take-take k n old (xs ++ drop (n + length xs) old) short v.0
                ∙ ap (λ i. take k (m.cells i)) same,
            (
              subst (λ l. k ≤ length l) (sym cell)
                  (omega (arith, short, v.0, (length-write n old xs v.0).0)),
              w.1,
            ),
          )
      | inr apart ↦ elsewhere (omega (arith, apart))
    ]
    | inr apart ↦ elsewhere (omega (arith, apart))
  ]
    where
      elsewhere :
          a ≢ b
          → (take k (
                update m.cells a (take n (m.cells a) ++ (xs ++ drop (n + length xs) (m.cells a))) b)
              ≡ take k (m.cells b))
            × ((k
                  ≤ length (
                      update m.cells a
                        (take n (m.cells a) ++ (xs ++ drop (n + length xs) (m.cells a)))
                        b))
                × (b < m.next))
      elsewhere apart =
          let cell =
            update_other m.cells a b
              (take n (m.cells a) ++ (xs ++ drop (n + length xs) (m.cells a))) apart in
          (ap (take k) cell, (subst (λ l. k ≤ length l) (sym cell) w.0, w.1))

  grown_keeps :
      (p : Option ℕ) (k d : ℕ) (l : List A) (m : Arrays A)
      → IsValid m (record { array = p; len = k; cap = d })
      → (elements
            (record { cells = update m.cells m.next l; next = m.next + 1 })
            (record { array = p; len = k; cap = d })
          ≡ elements m (record { array = p; len = k; cap = d }))
        × IsValid
            (record { cells = update m.cells m.next l; next = m.next + 1 })
            (record { array = p; len = k; cap = d })
  grown_keeps none k d l m v = (refl, v)
  grown_keeps (some b) k d l m v =
      let cell = update_other m.cells m.next b l (omega (arith, v.1)) in
      (ap (take k) cell, (subst (λ l. k ≤ length l) (sym cell) v.0, omega (arith, v.1)))

  -- What `append` to a slice leaves alone: every slice, unless it writes in place and the slice is
  -- a longer one on the same array.
  pub append_keeps :
      (grow : ℕ → ℕ → ℕ) (s t : Slice) (xs : List A) (m : Arrays A)
      → IsValid m s
      → IsValid m t
      → (s.len + length xs ≤ s.cap → t.array ≡ s.array → t.len ≤ s.len)
      → (let (s', m') = append grow s xs m in (elements m' t ≡ elements m t) × IsValid m' t)
  append_keeps grow s t xs m v w h = elim (le_or_lt (s.len + length xs) s.cap) [
    | inl room ↦
        subst (λ r. (elements r.1 t ≡ elements m t) × IsValid r.1 t)
          (sym (append_in_place grow s xs m room))
          (write_keeps s.array t.array s.len s.cap t.len t.cap xs m v w (h room))
    | inr over ↦
        subst (λ r. (elements r.1 t ≡ elements m t) × IsValid r.1 t)
          (sym (append_grown grow s xs m over))
          (grown_keeps t.array t.len t.cap (elements m s ++ xs) m w)
  ]

  -- `append` yields the elements of the slice and then the new ones.
  pub append-elements :
      (grow : ℕ → ℕ → ℕ) (s : Slice) (xs : List A) (m : Arrays A)
      → IsValid m s
      → (let (s', m') = append grow s xs m in elements m' s') ≡ elements m s ++ xs
  append-elements grow s xs m v = elim (le_or_lt (s.len + length xs) s.cap) [
    | inl room ↦
        ap (λ r. elements r.1 r.0) (append_in_place grow s xs m room)
        ∙ in_place_elements s.array s.len s.cap xs m v room
    | inr over ↦
        ap (λ r. elements r.1 r.0) (append_grown grow s xs m over)
        ∙ grown_elements s.len m.next m.cells (elements m s) xs (length-elements m s v)
  ]
