-- ===== src/Utils/Trie/Deletion/Effect.antt =====
-- `Del` of utils/tree/trie_tree.go: when it panics, and what `Find` answers after it.
use aqi.Prelude.{
  ℕ, ◌<◌, ◌≡◌, refl, List, [], ◌∷◌, ◌++◌, Option, none, some, ltb, arith, Bool-cases, inl, inr, ◌⊎◌,
}
use aqi.Utils.Trie.{Node, count, walk, modify_at, unword, cut, Branch, del_loop, del_at, del}
use aqi.Utils.Trie.Edit.{IsUnbranched}
use aqi.Utils.Trie.Deletion.{del_loop-Scanned}

module _ {A : Type 0} where
  -- A deletion that returns clears the mark of an inner node, or cuts off the child where an
  -- unbranched path to the leaf starts.
  pub data Effect (root : Node A) (str : List ℕ) (t : Node A) : Type 0 where
    unmark :
        (e : Node A)
        → walk root str ≡ some e
        → 0 < count e
        → t ≡ modify_at str unword root
        → Effect root str t
    prune :
        (path tail : List ℕ) (x : ℕ) (m e : Node A)
        → str ≡ path ++ x ∷ tail
        → walk root path ≡ some m
        → IsUnbranched m (x ∷ tail)
        → walk root str ≡ some e
        → count e ≡ 0
        → t ≡ modify_at path (cut x) root
        → Effect root str t

  Effect-del_at :
      (root e t : Node A) (x : ℕ) (rest : List ℕ) (last : Branch)
      → (walk root (x ∷ rest) ≡ some e)
      → del_at root x (x ∷ rest) (some e) last ≡ some t
      → (IsUnbranched root (x ∷ rest) × (last ≡ none))
        ⊎ ((s : List ℕ) × (y : ℕ) × (tail : List ℕ) × (m : Node A) × (x ∷ rest ≡ s ++ y ∷ tail)
            × (walk root s ≡ some m)
            × IsUnbranched m (y ∷ tail)
            × (last ≡ some (s, y)))
      → Effect root (x ∷ rest) t
  unfolding del_at walk
  Effect-del_at root e t x rest last to h scanned = elim (Bool-cases (ltb 0 (count e))) [
    | inl inner ↦ Effect.unmark e to (ground arith) (ground (arith, inner))
    | inr leaf ↦ elim scanned [
      | inl (un, is) ↦
          Effect.prune [] rest x root e refl refl un to (ground arith) (ground (arith, leaf, is))
      | inr (s, y, tail, m, split, at, un, is) ↦
          Effect.prune s tail y m e split at un to (ground arith) (ground (arith, leaf, is))
    ]
  ]

  pub del-Effect :
      (root t : Node A) (x : ℕ) (rest : List ℕ)
      → del root (x ∷ rest) ≡ some t
      → Effect root (x ∷ rest) t
  unfolding del
  del-Effect root t x rest h = go (del_loop (some root) [] (x ∷ rest) none) refl
    where
      go :
          (r : Option (Option (Node A) × Branch))
          → del_loop (some root) [] (x ∷ rest) none ≡ r
          → Effect root (x ∷ rest) t
      go none e = absurd (ground (arith, e))
      go (some (none, last)) e = absurd (ground (arith, e))
      go (some (some n, last)) e =
          let (to, scanned) = del_loop-Scanned root n [] (x ∷ rest) none last e in
          Effect-del_at root n t x rest last to (ground (arith, e)) scanned
