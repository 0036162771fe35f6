-- ===== src/Utils/Trie/Deletion/Domain.antt =====
-- When `Del` of utils/tree/trie_tree.go returns and when it panics.
use aqi.Prelude.{
  ℕ, ◌≤◌, ◌<◌, ◌≡◌, ◌↔◌, refl, true, false, List, [], ◌∷◌, ◌++◌, Option, none, some, ltb, arith,
  Option-cases, Bool-cases, inl, inr, leb,
}
use aqi.Utils.Trie.{Node, node, get_child, count, walk, Branch, del_loop, del_at, del}
use aqi.Utils.Trie.Deletion.Effect.{Effect, del-Effect}

module _ {A : Type 0} where
  -- On a path that exists and ends at a node with at most one child the loop returns that node.
  del_loop_total :
      (n e : Node A) (path rest : List ℕ) (last : Branch)
      → walk n rest ≡ some e
      → count e ≤ 1
      → (last' : Branch) × (del_loop (some n) path rest last ≡ some (some e, last'))
  unfolding del_loop walk
  del_loop_total n e path [] last to few = (last, ground arith)
  del_loop_total (node v d c p ch w) e path (x ∷ []) last to few =
      elim (Option-cases (get_child x ch)) [
        | inl o ↦ absurd (ground (arith, o))
        | inr (next, o) ↦
            let is : next ≡ e = ground (arith, o) in
            let small : ltb 1 (count next) ≡ false = rw is (ground arith) in
            (last, ground (arith, o, is, small))
      ]
  del_loop_total (node v d c p ch w) e path (x ∷ y ∷ rest) last to few =
      elim (Option-cases (get_child x ch)) [
        | inl o ↦ absurd (ground (arith, o))
        | inr (next, o) ↦ elim (Bool-cases (ltb 1 (count next))) [
          | inl many ↦
              let (last', r) =
                del_loop_total next e (path ++ x ∷ []) (y ∷ rest) (some (path ++ x ∷ [], y))
                  (ground (arith, o)) few in
              (last', ground (arith, o, many, r))
          | inr small ↦
              let (last', r) =
                del_loop_total next e (path ++ x ∷ []) (y ∷ rest) last (ground (arith, o)) few in
              (last', ground (arith, o, small, r))
        ]
      ]

  -- A last node with two or more children makes `bt[index+1]` fault.
  del_loop_faults :
      (n e : Node A) (x : ℕ) (path rest : List ℕ) (last : Branch)
      → walk n (x ∷ rest) ≡ some e
      → 1 < count e
      → del_loop (some n) path (x ∷ rest) last ≡ none
  unfolding del_loop walk
  del_loop_faults (node v d c p ch w) e x path [] last to many =
      elim (Option-cases (get_child x ch)) [
        | inl o ↦ absurd (ground (arith, o))
        | inr (next, o) ↦
            let is : next ≡ e = ground (arith, o) in
            let big : ltb 1 (count next) ≡ true = rw is (ground arith) in ground (arith, o, big)
      ]
  del_loop_faults (node v d c p ch w) e x path (y ∷ rest) last to many =
      elim (Option-cases (get_child x ch)) [
        | inl o ↦ absurd (ground (arith, o))
        | inr (next, o) ↦ ground (
          arith,
          o,
          del_loop_faults next e y (path ++ x ∷ []) rest last,
          del_loop_faults next e y (path ++ x ∷ []) rest (some (path ++ x ∷ [], y)),
        )
      ]

  del_at_total :
      (root e : Node A) (x : ℕ) (str : List ℕ) (last : Branch)
      → (t : Node A) × (del_at root x str (some e) last ≡ some t)
  unfolding del_at
  del_at_total root e x str last = elim (Option-cases (del_at root x str (some e) last)) [
    | inl o ↦ absurd (ground (arith, o))
    | inr r ↦ r
  ]

  -- The string has its path in the trie, and at most one child at its end.
  abbrev pub CanDelete : Option (Node A) → Type 0
  CanDelete none = ⊥
  CanDelete (some e) = count e ≤ 1

  walk-Effect :
      (root t : Node A) (str : List ℕ) → Effect root str t → (e : Node A) × (walk root str ≡ some e)
  walk-Effect root t str (Effect.unmark e to _ _) = (e, to)
  walk-Effect root t str (Effect.prune _ _ _ _ e _ _ _ to _ _) = (e, to)

  -- `Del` of a nonempty string returns exactly when the string's path exists and its last node has
  -- at most one child; otherwise it panics.
  pub del-CanDelete :
      (root : Node A) (x : ℕ) (rest : List ℕ)
      → ((t : Node A) × (del root (x ∷ rest) ≡ some t)) ↔ CanDelete (walk root (x ∷ rest))
  unfolding del
  del-CanDelete root x rest = (only, go (walk root (x ∷ rest)) refl)
    where
      only : ((t : Node A) × (del root (x ∷ rest) ≡ some t)) → CanDelete (walk root (x ∷ rest))
      only (t, h) =
          let (e, to) = walk-Effect root t (x ∷ rest) (del-Effect root t x rest h) in
          elim (Bool-cases (leb (count e) 1)) [
            | inl few ↦ rw to (ground arith)
            | inr many ↦
                absurd (ground (arith, del_loop_faults root e x [] rest none to (ground arith)))
          ]

      go :
          (o : Option (Node A))
          → walk root (x ∷ rest) ≡ o
          → CanDelete (walk root (x ∷ rest))
          → (t : Node A) × (del root (x ∷ rest) ≡ some t)
      go none to h = absurd (rw to at h)
      go (some e) to h =
          let (last, r) = del_loop_total root e [] (x ∷ rest) none to (rw to at h) in
          let (t, is) = del_at_total root e x (x ∷ rest) last in (t, rw r is)
