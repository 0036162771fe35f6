-- ===== src/Utils/Trie/Deletion.antt =====
-- What `Del` of utils/tree/trie_tree.go does to a trie: it fails, or it clears a mark, or it cuts
-- one child off.
pub mod Effect
pub mod Answers
pub mod Domain
pub mod Keeps
use aqi.Prelude.{
  ℕ, zero, suc, ◌+◌, ◌≤◌, ◌<◌, ◌≡◌, ◌≢◌, refl, sym, ap, ◌∙◌, Bool, true, false, List, [], ◌∷◌, ◌++◌,
  Option, none, some, ltb, if◌then◌else◌, arith, Option-cases, Bool-cases, inl, inr, ◌⊎◌,
}
use mathlib.Core.List.{append_assoc}
use aqi.Utils.Trie.{
  Node, node, Children, get_child, count, walk, modify_at, unword, cut, Branch, branch_or_root,
  del_loop, del_at, del_after, del,
}
use aqi.Utils.Trie.Edit.{IsUnbranched}

module _ {A : Type 0} where
  -- What the loop of `Del` finds on the way `rest` from the node `n` at `path`.
  abbrev Scanned : Node A → List ℕ → List ℕ → Branch → Branch → Type 0
  Scanned n path rest last last' =
      (IsUnbranched n rest × (last' ≡ last))
      ⊎ ((s : List ℕ) × (x : ℕ) × (tail : List ℕ) × (m : Node A) × (rest ≡ s ++ x ∷ tail)
          × (walk n s ≡ some m)
          × IsUnbranched m (x ∷ tail)
          × (last' ≡ some (path ++ s, x)))

  del_loop-none :
      (path rest : List ℕ) (last last' : Branch) (e : Node A)
      → del_loop none path rest last ≢ some (some e, last')
  unfolding del_loop
  del_loop-none path [] last last' e h = cc
  del_loop-none path (x ∷ rest) last last' e h = cc

  -- The step of the loop to a node that has at most one child.
  scan_on :
      (v d c x : ℕ) (p : Option A) (ch : Children A) (w : Bool) (next : Node A) (path rest : List ℕ)
      (last last' : Branch)
      → get_child x ch ≡ some next
      → count next ≤ 1
      → Scanned next (path ++ x ∷ []) rest last last'
      → Scanned (node v d c p ch w) path (x ∷ rest) last last'
  unfolding walk
  scan_on v d c x p ch w next path rest last last' at few (inl (un, same)) =
      inl ((next, at, few, un), same)
  scan_on v d c x p ch w next path rest last last' at few (inr (s, y, tail, m, split, to, un, is)) =
      inr (
        x ∷ s,
        y,
        tail,
        m,
        ap (λ l. x ∷ l) split,
        ground (arith, at, to),
        un,
        is ∙ ap (λ l. some (l, y)) (append_assoc path (x ∷ []) s),
      )

  -- The step of the loop to a node with more children, which becomes `lastBranch`.
  scan_branch :
      (v d c x y : ℕ) (p : Option A) (ch : Children A) (w : Bool) (next : Node A)
      (path rest : List ℕ) (last last' : Branch)
      → get_child x ch ≡ some next
      → Scanned next (path ++ x ∷ []) (y ∷ rest) (some (path ++ x ∷ [], y)) last'
      → Scanned (node v d c p ch w) path (x ∷ y ∷ rest) last last'
  unfolding walk
  scan_branch v d c x y p ch w next path rest last last' at (inl (un, same)) =
      inr (x ∷ [], y, rest, next, refl, ground (arith, at), un, same)
  scan_branch v d c x y p ch w next path rest last last' at
        (inr (s, z, tail, m, split, to, un, is)) =
      inr (
        x ∷ s,
        z,
        tail,
        m,
        ap (λ l. x ∷ l) split,
        ground (arith, at, to),
        un,
        is ∙ ap (λ l. some (l, z)) (append_assoc path (x ∷ []) s),
      )

  -- What the loop has found when it ends at a node.
  pub del_loop-Scanned :
      (n e : Node A) (path rest : List ℕ) (last last' : Branch)
      → del_loop (some n) path rest last ≡ some (some e, last')
      → (walk n rest ≡ some e) × Scanned n path rest last last'
  unfolding del_loop walk
  del_loop-Scanned n e path [] last last' h = (cc, inl (tt, cc))
  del_loop-Scanned (node v d c p ch w) e path (x ∷ []) last last' h =
      elim (Option-cases (get_child x ch)) [
        | inl o ↦ absurd (ground (arith, o))
        | inr (next, o) ↦ elim (Bool-cases (ltb 1 (count next))) [
          | inl many ↦ absurd (ground (arith, o, many))
          | inr few ↦
              let (to, rest') =
                del_loop-Scanned next e (path ++ x ∷ []) [] last last' (ground (arith, o, few)) in
              (
                ground (arith, o, to),
                scan_on v d c x p ch w next path [] last last' o (ground arith) rest',
              )
        ]
      ]
  del_loop-Scanned (node v d c p ch w) e path (x ∷ y ∷ rest) last last' h =
      elim (Option-cases (get_child x ch)) [
        | inl o ↦
            absurd (del_loop-none (path ++ x ∷ []) (y ∷ rest) last last' e (ground (arith, o)))
        | inr (next, o) ↦ elim (Bool-cases (ltb 1 (count next))) [
          | inl many ↦
              let (to, rest') =
                del_loop-Scanned next e (path ++ x ∷ []) (y ∷ rest) (some (path ++ x ∷ [], y)) last'
                  (ground (arith, o, many)) in
              (
                ground (arith, o, to),
                scan_branch v d c x y p ch w next path rest last last' o rest',
              )
          | inr few ↦
              let (to, rest') =
                del_loop-Scanned next e (path ++ x ∷ []) (y ∷ rest) last last'
                  (ground (arith, o, few)) in
              (
                ground (arith, o, to),
                scan_on v d c x p ch w next path (y ∷ rest) last last' o (ground arith) rest',
              )
        ]
      ]
