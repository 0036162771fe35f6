-- ===== src/Utils/Trie/Deletion/Answers.antt =====
-- What `Find` answers after `Del` of utils/tree/trie_tree.go.
use mathlib.Core.List.{append-nil}
use aqi.Prelude.{
  ℕ, ◌≡◌, ◌≢◌, refl, sym, ap, ◌∙◌, Bool, true, false, List, [], ◌∷◌, ◌++◌, Option, none, some,
  nat_beq, arith, Bool-cases, inl, inr, ◌⊎◌,
}
use aqi.Utils.Trie.{Node, node, count, walk, found, find, modify_at, unword, cut, del}
use aqi.Utils.Trie.WellFormed.{IsWellFormed, child_facts}
use aqi.Utils.Trie.Collection.{walk-append, walk-IsWellFormed}
use aqi.Utils.Trie.Edit.{
  IsUnbranched, prefix_of, prefix_rest, prefix_of-append_both, prefix_of-extend_nil, walk-modify_at,
  found-modify_at, get_child-delete_child, off_chain,
}
use aqi.Utils.Trie.Deletion.Effect.{Effect, del-Effect}

module _ {A : Type 0} where
  found-cut_self :
      (x : ℕ) (m : Node A) (tail : List ℕ) → found (walk (cut x m) (x ∷ tail)) ≡ (false, none)
  unfolding walk
  found-cut_self x (node v d c p ch w) tail = ground (arith, get_child-delete_child x x ch)

  -- A string that leaves an unbranched path to a leaf is no word, so a cut there changes nothing.
  found-cut_off :
      (x : ℕ) (m e : Node A) (tail u : List ℕ)
      → IsWellFormed m
      → IsUnbranched m (x ∷ tail)
      → walk m (x ∷ tail) ≡ some e
      → count e ≡ 0
      → prefix_of u (x ∷ tail) ≡ false
      → found (walk (cut x m) u) ≡ found (walk m u)
  unfolding walk
  found-cut_off x m e tail [] wf un to leaf h = cc
  found-cut_off x (node v d c p ch w) e tail (y ∷ u) wf (next, at, few, un) to leaf h =
      elim (Bool-cases (nat_beq x y)) [
        | inl t ↦
            let xy : x ≡ y = ground arith in
            let wf' = (child_facts d x next ch wf.1 at).2 in
            let below : walk next tail ≡ some e = ground (arith, at) in
            let lost = off_chain next e tail u wf' few un below leaf (ground arith) in
            ground (arith, get_child-delete_child y x ch, at, xy, lost)
        | inr f ↦ ground (arith, get_child-delete_child y x ch)
      ]

  found-unword : (e : Node A) (u : List ℕ) → u ≢ [] → found (walk (unword e) u) ≡ found (walk e u)
  unfolding walk
  found-unword (node v d c p ch w) [] h = absurd (h refl)
  found-unword (node v d c p ch w) (y ∷ u) h = refl

  -- The string that `Del` was given is no word any more.
  pub find-del_self :
      (root t : Node A) (x : ℕ) (rest : List ℕ)
      → del root (x ∷ rest) ≡ some t
      → (find t (x ∷ rest)).0 ≡ false
  unfolding find walk
  find-del_self root t x rest h = elim (del-Effect root t x rest h) [
    | Effect.unmark e to inner is ↦ rw is (
        rw (ap (λ l. walk (modify_at (x ∷ rest) unword root) l) (sym (append-nil (x ∷ rest))))
          (rw (walk-modify_at unword root e (x ∷ rest) [] to) (unmarked e)))
    | Effect.prune path tail y m e split at un to leaf is ↦
        rw (is, split)
          (rw (walk-modify_at (cut y) root m path (y ∷ tail) at)
            (ap (λ (r : Bool × Option A). r.0) (found-cut_self y m tail)))
  ]
    where
      unmarked : (e : Node A) → (found (walk (unword e) [])).0 ≡ false
      unmarked (node v d c p ch w) = refl

  -- Every string that is no prefix of the deleted one keeps its answer.
  pub find-del_other :
      (root t : Node A) (x : ℕ) (rest str : List ℕ)
      → IsWellFormed root
      → del root (x ∷ rest) ≡ some t
      → prefix_of str (x ∷ rest) ≡ false
      → find t str ≡ find root str
  unfolding find
  find-del_other root t x rest str wf h apart = elim (del-Effect root t x rest h) [
    | Effect.unmark e to inner is ↦ rw is (unmarked e to (Bool-cases (prefix_of (x ∷ rest) str)))
    | Effect.prune path tail y m e split at un to leaf is ↦ rw is (
        pruned path tail y m e split at un
          (sym (walk-append root m path (y ∷ tail) at) ∙ ap (walk root) (sym split) ∙ to) leaf
          (Bool-cases (prefix_of path str)))
  ]
    where
      unmarked :
          (e : Node A)
          → walk root (x ∷ rest) ≡ some e
          → (prefix_of (x ∷ rest) str ≡ true) ⊎ (prefix_of (x ∷ rest) str ≡ false)
          → found (walk (modify_at (x ∷ rest) unword root) str) ≡ found (walk root str)
      unmarked e to (inl under) =
          let (u, is) = prefix_rest (x ∷ rest) str under in
          rw is (
            rw (walk-modify_at unword root e (x ∷ rest) u to, walk-append root e (x ∷ rest) u to)
              (found-unword e u
                (λ nothing. cc (prefix_of-extend_nil (x ∷ rest) u nothing, is, apart))))
      unmarked e to (inr off) = found-modify_at unword root (x ∷ rest) str off

      pruned :
          (path tail : List ℕ) (y : ℕ) (m e : Node A)
          → x ∷ rest ≡ path ++ y ∷ tail
          → walk root path ≡ some m
          → IsUnbranched m (y ∷ tail)
          → walk m (y ∷ tail) ≡ some e
          → count e ≡ 0
          → (prefix_of path str ≡ true) ⊎ (prefix_of path str ≡ false)
          → found (walk (modify_at path (cut y) root) str) ≡ found (walk root str)
      pruned path tail y m e split at un to leaf (inl under) =
          let (u, is) = prefix_rest path str under in
          rw is (
            rw (walk-modify_at (cut y) root m path u at, walk-append root m path u at)
              (found-cut_off y m e tail u (walk-IsWellFormed root m path wf at) un to leaf
                (cc (prefix_of-append_both path u (y ∷ tail), is, split, apart))))
      pruned path tail y m e split at un to leaf (inr off) =
          found-modify_at (cut y) root path str off
