-- ===== src/Utils/Trie/WellFormed.antt =====
-- The invariant of the tries that `Insert` of utils/tree/trie_tree.go builds.
use aqi.Prelude.{
  ℕ, suc, ◌+◌, ◌≡◌, refl, List, [], ◌∷◌, none, some, nat_beq, arith, Option-cases, inl, inr, ◌∙◌,
  Bool-cases,
}
use aqi.Utils.Trie.{
  Node, node, Children, nil, child, get_child, set_child, new_node, insert_from, insert, depth,
}
use aqi.Utils.Trie.Insertion.{get_child-set_child}

module _ {A : Type 0} where
  abbrev pub val : Node A → ℕ
  val (node v d c p ch w) = v

  abbrev pub size : Children A → ℕ
  size nil = 0
  size (child r n rest) = suc (size rest)

abbrev mutual
  pub IsWellFormed : {A : Type 0} → Node A → Type 0
  IsWellFormed (node v d c p ch w) = (c ≡ size ch) × AreChildrenOf d ch

  -- The children of a node of depth `d`: one to a rune, each with its rune and the next depth.
  pub AreChildrenOf : {A : Type 0} → ℕ → Children A → Type 0
  AreChildrenOf d nil = Unit
  AreChildrenOf d (child r n rest) =
      (depth n ≡ d + 1)
      × (val n ≡ r)
      × (get_child r rest ≡ none)
      × IsWellFormed n
      × AreChildrenOf d rest

module _ {A : Type 0} where
  size-set_child_new :
      (k : ℕ) (n : Node A) (ch : Children A)
      → get_child k ch ≡ none
      → size (set_child k n ch) ≡ suc (size ch)
  size-set_child_new k n nil h = refl
  size-set_child_new k n (child r m rest) h = ground (arith, size-set_child_new k n rest)

  pub size-set_child_old :
      (k : ℕ) (n m : Node A) (ch : Children A)
      → get_child k ch ≡ some m
      → size (set_child k n ch) ≡ size ch
  size-set_child_old k n m nil h = cc
  size-set_child_old k n m (child r m' rest) h = ground (arith, size-set_child_old k n m rest)

  pub child_facts :
      (d k : ℕ) (n : Node A) (ch : Children A)
      → AreChildrenOf d ch
      → get_child k ch ≡ some n
      → (depth n ≡ d + 1) × (val n ≡ k) × IsWellFormed n
  child_facts d k n nil h e = cc
  child_facts d k n (child r m rest) h e = elim (Bool-cases (nat_beq r k)) [
    | inl t ↦ let same : m ≡ n = ground arith in rw (← same) (h.0, h.1 ∙ ground arith, h.3)
    | inr f ↦ child_facts d k n rest h.4 (ground arith)
  ]

  pub set_child-AreChildrenOf :
      (d k : ℕ) (n : Node A) (ch : Children A)
      → depth n ≡ d + 1
      → val n ≡ k
      → IsWellFormed n
      → AreChildrenOf d ch
      → AreChildrenOf d (set_child k n ch)
  set_child-AreChildrenOf d k n nil hd hv hn h = (hd, hv, refl, hn, tt)
  set_child-AreChildrenOf d k n (child r m rest) hd hv hn h = elim (Bool-cases (nat_beq r k)) [
    | inl t ↦ rw t (hd, hv, ground (arith, h.2), hn, h.4)
    | inr f ↦ rw f (
      h.0,
      h.1,
      get_child-set_child r k n rest ∙ ground (arith, h.2),
      h.3,
      set_child-AreChildrenOf d k n rest hd hv hn h.4,
    )
  ]

  depth-insert_from : (n : Node A) (s : List ℕ) (q : A) → depth (insert_from n s q) ≡ depth n
  unfolding insert_from
  depth-insert_from (node v d c p ch w) [] q = refl
  depth-insert_from (node v d c p ch w) (x ∷ s) q = ground arith

  val-insert_from : (n : Node A) (s : List ℕ) (q : A) → val (insert_from n s q) ≡ val n
  unfolding insert_from
  val-insert_from (node v d c p ch w) [] q = refl
  val-insert_from (node v d c p ch w) (x ∷ s) q = ground arith

  insert_from-IsWellFormed :
      (n : Node A) (s : List ℕ) (q : A) → IsWellFormed n → IsWellFormed (insert_from n s q)
  unfolding insert_from
  insert_from-IsWellFormed (node v d c p ch w) [] q h = h
  insert_from-IsWellFormed (node v d c p ch w) (x ∷ s) q h = elim (Option-cases (get_child x ch)) [
    | inl e ↦
        let fresh = insert_from (new_node x (d + 1)) s q in
        rw (e, insert_from)
          (
            omega (arith, size-set_child_new x fresh ch e, h.0),
            set_child-AreChildrenOf d x fresh ch (depth-insert_from (new_node x (d + 1)) s q)
                (val-insert_from (new_node x (d + 1)) s q)
                (insert_from-IsWellFormed (new_node x (d + 1)) s q (refl, tt)) h.1,
          )
    | inr (next, e) ↦
        let facts = child_facts d x next ch h.1 e in
        rw (e, insert_from)
          (
            omega (arith, size-set_child_old x (insert_from next s q) next ch e, h.0),
            set_child-AreChildrenOf d x (insert_from next s q) ch
                (depth-insert_from next s q ∙ facts.0) (val-insert_from next s q ∙ facts.1)
                (insert_from-IsWellFormed next s q facts.2) h.1,
          )
  ]

  -- `Insert` keeps the invariant: at every node `Count` is the number of children, their runes
  -- differ and stand in `Val`, and their `Depth` is one more.
  pub insert-IsWellFormed :
      (root : Node A) (str : List ℕ) (q : A) → IsWellFormed root → IsWellFormed (insert root str q)
  unfolding insert
  insert-IsWellFormed root [] q h = h
  insert-IsWellFormed root (x ∷ s) q h = insert_from-IsWellFormed root (x ∷ s) q h
