-- ===== src/Utils/Trie/Collection.antt =====
-- `FindAll` and `collect` of utils/tree/trie_tree.go against `Find`.
use mathlib.Core.List.{Memᴰ}
use mathlib.Core.List.Memᴰ
use aqi.Prelude.{
  ℕ, ◌≡◌, sym, ap, ◌∙◌, Bool, true, false, List, [], ◌∷◌, ◌++◌, Option, none, some, nat_beq,
  if◌then◌else◌, arith, Option-cases, Bool-cases, inl, inr,
}
use aqi.Utils.Trie.{
  Node, node, Children, nil, child, get_child, walk, found, find, collect, collect_children,
  find_all,
}
use aqi.Utils.Trie.WellFormed.{IsWellFormed, AreChildrenOf, child_facts}

module _ {A : Type 0} where
  pub walk-append : (n m : Node A) (s t : List ℕ) → walk n s ≡ some m → walk n (s ++ t) ≡ walk m t
  unfolding walk
  walk-append n m [] t h = ground (arith)
  walk-append (node v d c p ch w) m (x ∷ s) t h = elim (Option-cases (get_child x ch)) [
    | inl e ↦ ground (arith, e)
    | inr (next, e) ↦ ground (arith, e, walk-append next m s t)
  ]

  pub walk-none : (n : Node A) (s t : List ℕ) → walk n s ≡ none → walk n (s ++ t) ≡ none
  unfolding walk
  walk-none n [] t h = cc
  walk-none (node v d c p ch w) (x ∷ s) t h = elim (Option-cases (get_child x ch)) [
    | inl e ↦ ground (arith, e)
    | inr (next, e) ↦ ground (arith, e, walk-none next s t)
  ]

  pub walk-IsWellFormed :
      (n m : Node A) (s : List ℕ) → IsWellFormed n → walk n s ≡ some m → IsWellFormed m
  unfolding walk
  walk-IsWellFormed n m [] h e = let same : n ≡ m = cc in rw (← same) h
  walk-IsWellFormed (node v d c p ch w) m (x ∷ s) h e = elim (Option-cases (get_child x ch)) [
    | inl o ↦ absurd (ground (arith, o))
    | inr (next, o) ↦
        walk-IsWellFormed next m s (child_facts d x next ch h.1 o).2 (ground (arith, o))
  ]

  collect-child :
      (p : Option A) (k : ℕ) (n : Node A) (ch : Children A)
      → get_child k ch ≡ some n
      → Memᴰ p (collect n)
      → Memᴰ p (collect_children ch)
  unfolding collect
  collect-child p k n nil e m = cc
  collect-child p k n (child r x rest) e m = elim (Bool-cases (nat_beq r k)) [
    | inl t ↦
        let same : n ≡ x = ground arith in Memᴰ.append_left (collect_children rest) (rw same at m)
    | inr f ↦ Memᴰ.append_right (collect x) (collect-child p k n rest (ground arith) m)
  ]

  word_collected :
      (n : Node A) (str : List ℕ) (p : Option A)
      → found (walk n str) ≡ (true, p)
      → Memᴰ p (collect n)
  unfolding walk collect
  word_collected (node v d c q ch true) [] p h = let same : p ≡ q = ground arith in Memᴰ.head same
  word_collected (node v d c q ch false) [] p h = cc
  word_collected (node v d c q ch w) (x ∷ str) p h = elim (Option-cases (get_child x ch)) [
    | inl e ↦ absurd (ground (arith, e))
    | inr (next, e) ↦
        Memᴰ.append_right (if w then q ∷ [] else [])
          (collect-child p x next ch e (word_collected next str p (ground (arith, e))))
  ]

  own_word :
      (v d c : ℕ) (q p : Option A) (ch : Children A) (w : Bool)
      → Memᴰ p (if w then q ∷ [] else [])
      → found (walk (node v d c q ch w) []) ≡ (true, p)
  unfolding walk
  own_word v d c q p ch true m = ground (arith, Memᴰ.eq_of_singleton m)
  own_word v d c q p ch false m = absurd (Memᴰ.not-nil m)

  -- A word below one child.
  abbrev WordBelow : Children A → Option A → Type 0
  WordBelow ch p =
      (k : ℕ) × (n : Node A) × (str : List ℕ) × (get_child k ch ≡ some n)
      × (found (walk n str) ≡ (true, p))

  WordBelow-child :
      (r : ℕ) (n : Node A) (rest : Children A) (p : Option A)
      → get_child r rest ≡ none
      → WordBelow rest p
      → WordBelow (child r n rest) p
  WordBelow-child r n rest p h (k, m, str, at, word) = (
    k,
    m,
    str,
    elim (Bool-cases (nat_beq r k)) [
      | inl t ↦ let e : r ≡ k = ground arith in absurd (let h' = rw e at h in cc)
      | inr f ↦ rw f at
    ],
    word,
  )

  get_child_head : (r : ℕ) (n : Node A) (rest : Children A) → get_child r (child r n rest) ≡ some n
  get_child_head r n rest = ground arith

  found-walk-child :
      (v d c k : ℕ) (q : Option A) (ch : Children A) (w : Bool) (n : Node A) (str : List ℕ)
      → get_child k ch ≡ some n
      → found (walk (node v d c q ch w) (k ∷ str)) ≡ found (walk n str)
  unfolding walk
  found-walk-child v d c k q ch w n str e = ground (arith, e)

mutual
  unfolding collect

  collected_word :
      {A : Type 0} (n : Node A) (p : Option A)
      → IsWellFormed n
      → Memᴰ p (collect n)
      → (str : List ℕ) × (found (walk n str) ≡ (true, p))
  collected_word (node v d c q ch w) p h m = elim (Memᴰ.append_cases (if w then q ∷ [] else []) m) [
    | inl here ↦ ([], own_word v d c q p ch w here)
    | inr below ↦
        let (k, n, str, at, word) = collected_below d ch p h.1 below in
        (k ∷ str, found-walk-child v d c k q ch w n str at ∙ word)
  ]

  collected_below :
      {A : Type 0} (d : ℕ) (ch : Children A) (p : Option A)
      → AreChildrenOf d ch
      → Memᴰ p (collect_children ch)
      → WordBelow ch p
  collected_below d nil p h m = absurd (Memᴰ.not-nil m)
  collected_below d (child r n rest) p h m = elim (Memᴰ.append_cases (collect n) m) [
    | inl here ↦
        let (str, word) = collected_word n p h.3 here in (r, n, str, get_child_head r n rest, word)
    | inr below ↦ WordBelow-child r n rest p h.2 (collected_below d rest p h.4 below)
  ]

module _ {A : Type 0} (root : Node A) (prefix : List ℕ) (p : Option A) where
  -- `FindAll` returns the payload of every word that starts with the prefix.
  pub find_all_complete :
      (str : List ℕ) → find root (prefix ++ str) ≡ (true, p) → Memᴰ p (find_all root prefix)
  unfolding find find_all
  find_all_complete str h = elim (Option-cases (walk root prefix)) [
    | inl e ↦ absurd (ground (arith, e, walk-none root prefix str))
    | inr (n, e) ↦
        rw e (word_collected n str p (ap found (sym (walk-append root n prefix str e)) ∙ h))
  ]

  -- In a well-formed trie, each payload that `FindAll` returns is that of a word which starts with
  -- the prefix.
  pub find_all_sound :
      IsWellFormed root
      → Memᴰ p (find_all root prefix)
      → (str : List ℕ) × (find root (prefix ++ str) ≡ (true, p))
  unfolding find find_all
  find_all_sound h m = elim (Option-cases (walk root prefix)) [
    | inl e ↦ absurd (Memᴰ.not-nil (rw e at m))
    | inr (n, e) ↦
        let (str, word) = collected_word n p (walk-IsWellFormed root n prefix h e) (rw e at m) in
        (str, ap found (walk-append root n prefix str e) ∙ word)
  ]
