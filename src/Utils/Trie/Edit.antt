-- ===== src/Utils/Trie/Edit.antt =====
-- Writes through a pointer into a trie, read back by a walk; and paths without branches.
use aqi.Prelude.{
  ℕ, ◌≤◌, ◌≡◌, refl, ap, ◌∙◌, Bool, true, false, ◌&&◌, List, [], ◌∷◌, ◌++◌, none, some, nat_beq,
  if◌then◌else◌, arith, Option-cases, Bool-cases, inl, inr,
}
use aqi.Utils.Trie.{
  Node, node, Children, nil, child, get_child, delete_child, count, walk, found, modify_at,
}
use aqi.Utils.Trie.WellFormed.{IsWellFormed, size, child_facts}
use aqi.Utils.Trie.Insertion.{get_child-set_child}

-- Whether a string starts with another.
abbrev pub prefix_of : List ℕ → List ℕ → Bool
prefix_of [] t = true
prefix_of (x ∷ s) [] = false
prefix_of (x ∷ s) (y ∷ t) = nat_beq x y && prefix_of s t

pub prefix_rest : (s t : List ℕ) → prefix_of s t ≡ true → (u : List ℕ) × (t ≡ s ++ u)
prefix_rest [] t h = (t, refl)
prefix_rest (x ∷ s) [] h = cc
prefix_rest (x ∷ s) (y ∷ t) h =
    let (u, e) = prefix_rest s t (ground arith) in (u, ground (arith, e))

pub prefix_of-append : (s t : List ℕ) → prefix_of s (s ++ t) ≡ true
prefix_of-append [] t = refl
prefix_of-append (x ∷ s) t = ground (arith, prefix_of-append s t)

pub prefix_of-append_both : (s t u : List ℕ) → prefix_of (s ++ t) (s ++ u) ≡ prefix_of t u
prefix_of-append_both [] t u = refl
prefix_of-append_both (x ∷ s) t u = ground (arith, prefix_of-append_both s t u)

pub prefix_of-extend_nil : (s u : List ℕ) → u ≡ [] → prefix_of (s ++ u) s ≡ true
prefix_of-extend_nil [] u h = rw h
prefix_of-extend_nil (x ∷ s) u h = ground (arith, prefix_of-extend_nil s u h)

module _ {A : Type 0} where
  -- The path exists, and no node on it below the first has more than one child.
  abbrev pub IsUnbranched : Node A → List ℕ → Type 0
  IsUnbranched n [] = Unit
  IsUnbranched (node v d c p ch w) (x ∷ s) =
      (next : Node A) × (get_child x ch ≡ some next) × (count next ≤ 1) × IsUnbranched next s

  pub walk-modify_at :
      (f : Node A → Node A) (n m : Node A) (s t : List ℕ)
      → walk n s ≡ some m
      → walk (modify_at s f n) (s ++ t) ≡ walk (f m) t
  unfolding walk modify_at
  walk-modify_at f n m [] t h = let e : n ≡ m = cc in rw e
  walk-modify_at f (node v d c p ch w) m (x ∷ s) t h = elim (Option-cases (get_child x ch)) [
    | inl e ↦ absurd (ground (arith, e))
    | inr (next, e) ↦
        ground
          (arith, e, get_child-set_child x x (modify_at s f next) ch, walk-modify_at f next m s t)
  ]

  pub found-modify_at :
      (f : Node A → Node A) (n : Node A) (s t : List ℕ)
      → prefix_of s t ≡ false
      → found (walk (modify_at s f n) t) ≡ found (walk n t)
  unfolding walk modify_at
  found-modify_at f n [] t h = cc
  found-modify_at f (node v d c p ch w) (x ∷ s) [] h = ground arith
  found-modify_at f (node v d c p ch w) (x ∷ s) (y ∷ t) h = elim (Option-cases (get_child x ch)) [
    | inl e ↦ ground (arith, e)
    | inr (next, e) ↦
        ground
          (arith, e, get_child-set_child y x (modify_at s f next) ch, found-modify_at f next s t)
  ]

  pub get_child-delete_child :
      (j k : ℕ) (ch : Children A)
      → get_child j (delete_child k ch) ≡ (if nat_beq k j then none else get_child j ch)
  get_child-delete_child j k nil = ground arith
  get_child-delete_child j k (child r n rest) = ground (arith, get_child-delete_child j k rest)

  get_child-none : (y : ℕ) (ch : Children A) → size ch ≡ 0 → get_child y ch ≡ none
  get_child-none y nil h = refl
  get_child-none y (child r n rest) h = absurd (omega arith)

  only_child :
      (x y : ℕ) (n : Node A) (ch : Children A)
      → size ch ≤ 1
      → get_child x ch ≡ some n
      → nat_beq x y ≡ false
      → get_child y ch ≡ none
  only_child x y n nil h e d = refl
  only_child x y n (child r m rest) h e d =
      ground (arith, get_child-none x rest (omega arith), get_child-none y rest (omega arith))

  -- Below a node on an unbranched path that ends in a leaf there are only the path's prefixes.
  pub off_chain :
      (n last : Node A) (tail t : List ℕ)
      → IsWellFormed n
      → count n ≤ 1
      → IsUnbranched n tail
      → walk n tail ≡ some last
      → count last ≡ 0
      → prefix_of t tail ≡ false
      → walk n t ≡ none
  unfolding walk
  off_chain (node v d c p ch w) last [] [] wf small un e leaf h = cc
  off_chain (node v d c p ch w) last [] (y ∷ t) wf small un e leaf h =
      let same : node v d c p ch w ≡ last = cc in
      let none_left : c ≡ 0 = ap count same ∙ leaf in
      ground (arith, get_child-none y ch (omega arith))
  off_chain n last (x ∷ tail) [] wf small un e leaf h = cc
  off_chain (node v d c p ch w) last (x ∷ tail) (y ∷ t) wf small (next, at, few, un) e leaf h =
      elim (Bool-cases (nat_beq x y)) [
        | inl t' ↦
            let xy : x ≡ y = ground arith in
            let below : walk next tail ≡ some last = ground (arith, at) in
            let ih =
              off_chain next last tail t (child_facts d x next ch wf.1 at).2 few un below leaf
                (ground arith) in
            ground (arith, at, ih, xy)
        | inr f ↦ ground (arith, only_child x y next ch (omega arith) at f)
      ]
