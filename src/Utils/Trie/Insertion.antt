-- ===== src/Utils/Trie/Insertion.antt =====
-- `Insert` of utils/tree/trie_tree.go against `Find`.
use aqi.Prelude.{
  ℕ, ◌≡◌, refl, ◌↔◌, true, false, List, [], ◌∷◌, none, some, nat_beq, ◌+◌, Option-cases, inl, inr,
  if◌then◌else◌, arith,
}
use aqi.Utils.Trie.{
  Node, node, Children, nil, child, get_child, set_child, new_node, insert_from, insert, walk,
  found, find, same,
}

module _ {A : Type 0} where
  pub get_child-set_child :
      (j k : ℕ) (n : Node A) (ch : Children A)
      → get_child j (set_child k n ch) ≡ (if nat_beq k j then some n else get_child j ch)
  get_child-set_child j k n nil = refl
  get_child-set_child j k n (child r m rest) = ground (arith, get_child-set_child j k n rest)

  found-walk-new_node :
      (v d : ℕ) (str : List ℕ) → found (walk (new_node {A = A} v d) str) ≡ (false, none)
  unfolding walk
  found-walk-new_node v d [] = refl
  found-walk-new_node v d (x ∷ str) = refl

  find-insert_from :
      (n : Node A) (s t : List ℕ) (q : A)
      → found (walk (insert_from n s q) t) ≡ (if same s t then (true, some q) else found (walk n t))
  unfolding insert_from walk
  find-insert_from (node v d c p ch w) [] [] q = refl
  find-insert_from (node v d c p ch w) [] (y ∷ t) q = refl
  find-insert_from (node v d c p ch w) (x ∷ s) [] q = ground arith
  find-insert_from (node v d c p ch w) (x ∷ s) (y ∷ t) q = elim (Option-cases (get_child x ch)) [
    | inl e ↦ ground (
      arith,
      e,
      get_child-set_child y x (insert_from (new_node x (d + 1)) s q) ch,
      find-insert_from (new_node x (d + 1)) s t q,
      found-walk-new_node x (d + 1) t,
    )
    | inr (next, e) ↦
        ground
          (arith, e, get_child-set_child y x (insert_from next s q) ch, find-insert_from next s t q)
  ]

  -- After `Insert`, `Find` has the new payload at the inserted string, and at every other string
  -- what it had before.
  pub find-insert :
      (root : Node A) (first : ℕ) (rest str : List ℕ) (q : A)
      → find (insert root (first ∷ rest) q) str
        ≡ (if same (first ∷ rest) str then (true, some q) else find root str)
  unfolding find insert
  find-insert root first rest str q = find-insert_from root (first ∷ rest) str q

pub same_iff : (s t : List ℕ) → (same s t ≡ true) ↔ (s ≡ t)
same_iff [] [] = (λ _. refl, λ _. refl)
same_iff [] (y ∷ t) = (λ h. cc, λ h. cc)
same_iff (x ∷ s) [] = (λ h. cc, λ h. cc)
same_iff (x ∷ s) (y ∷ t) = (λ h. ground (arith, same_iff s t), λ h. ground (arith, same_iff s t))
