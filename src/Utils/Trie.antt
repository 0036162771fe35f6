-- ===== src/Utils/Trie.antt =====
-- utils/tree/trie_tree.go: a trie over runes with a payload at each word. Nodes have one owner, so
-- a node is a tree; the map of children is an association list, whose order stands for the order
-- in which Go ranges over the map. `nil` payloads are `none`. A panic is `none` of the result.
pub mod Insertion
pub mod WellFormed
pub mod Collection
mod Examples
pub mod Edit
pub mod Deletion
use mathlib.Core.Option
use aqi.Prelude.{
  ℕ, zero, suc, ◌+◌, ◌-◌, ◌<◌, ◌≡◌, refl, Bool, true, false, ◌&&◌, List, [], ◌∷◌, ◌++◌, Option,
  none, some, nat_beq, ltb, if◌then◌else◌,
}

-- Equality of strings as rune slices.
abbrev pub same : List ℕ → List ℕ → Bool
same [] [] = true
same [] (y ∷ ys) = false
same (x ∷ xs) [] = false
same (x ∷ xs) (y ∷ ys) = nat_beq x y && same xs ys

-- `lastBranch` (nil, or a pointer, which is its path) with `delVal`.
abbrev pub Branch : Type 0
Branch = Option (List ℕ × ℕ)

abbrev pub branch_or_root : Branch → ℕ → List ℕ × ℕ
branch_or_root none first = ([], first)
branch_or_root (some b) first = b

mutual
  pub data Node (A : Type 0) : Type 0 where
    node : ℕ → ℕ → ℕ → Option A → Children A → Bool → Node A

  pub data Children (A : Type 0) : Type 0 where
    nil : Children A
    child : ℕ → Node A → Children A → Children A

module _ {A : Type 0} where
  -- The fields of a node: Val, Depth, Count, Payload, Child, IsWord.
  abbrev pub depth : Node A → ℕ
  depth (node v d c p ch w) = d

  abbrev pub count : Node A → ℕ
  count (node v d c p ch w) = c

  abbrev pub payload : Node A → Option A
  payload (node v d c p ch w) = p

  abbrev pub children : Node A → Children A
  children (node v d c p ch w) = ch

  abbrev pub is_word : Node A → Bool
  is_word (node v d c p ch w) = w

  -- `node.Child[val]`
  abbrev pub get_child : ℕ → Children A → Option (Node A)
  get_child k nil = none
  get_child k (child r n rest) = if nat_beq r k then some n else get_child k rest

  -- `node.Child[val] = child`, also the write through a pointer to a child
  abbrev pub set_child : ℕ → Node A → Children A → Children A
  set_child k n nil = child k n nil
  set_child k n (child r m rest) =
      if nat_beq r k then child k n rest else child r m (set_child k n rest)

  -- `delete(node.Child, val)`
  abbrev pub delete_child : ℕ → Children A → Children A
  delete_child k nil = nil
  delete_child k (child r m rest) =
      let others = delete_child k rest in if nat_beq r k then others else child r m others

  -- `NewNode`, with `Val` and `Depth` set as `Insert` does after adding it.
  abbrev pub new_node : ℕ → ℕ → Node A
  new_node v d = node v d 0 none nil false

  -- The walk of `Insert` from one node on.
  unfoldable pub insert_from : Node A → List ℕ → A → Node A
  insert_from (node v d c p ch w) [] q = node v d c (some q) ch true
  insert_from (node v d c p ch w) (val ∷ rest) q = elim (get_child val ch) [
    | none ↦ node v d (c + 1) p (set_child val (insert_from (new_node val (d + 1)) rest q) ch) w
    | some next ↦ node v d c p (set_child val (insert_from next rest q) ch) w
  ]

  unfoldable pub insert : Node A → List ℕ → A → Node A
  unfolding insert_from
  insert root [] q = root
  insert root (val ∷ rest) q = insert_from root (val ∷ rest) q

  -- The walk that `Find`, `FindAll` and `Del` share.
  unfoldable pub walk : Node A → List ℕ → Option (Node A)
  walk n [] = some n
  walk (node v d c p ch w) (val ∷ rest) = elim (get_child val ch) [
    | none ↦ none
    | some next ↦ walk next rest
  ]

  abbrev pub found : Option (Node A) → Bool × Option A
  found none = (false, none)
  found (some n) = (is_word n, payload n)

  unfoldable pub find : Node A → List ℕ → Bool × Option A
  unfolding walk
  find root str = found (walk root str)

  -- `append(payloads, node.Payload)` for a word.
  abbrev pub own : Node A → List (Option A)
  own n = if is_word n then payload n ∷ [] else []

unfoldable mutual
  pub collect : {A : Type 0} → Node A → List (Option A)
  collect (node v d c p ch w) = (if w then p ∷ [] else []) ++ collect_children ch

  pub collect_children : {A : Type 0} → Children A → List (Option A)
  collect_children nil = []
  collect_children (child r n rest) = collect n ++ collect_children rest

module _ {A : Type 0} where
  abbrev pub collected : Option (Node A) → List (Option A)
  collected none = []
  collected (some n) = collect n

  unfoldable pub find_all : Node A → List ℕ → List (Option A)
  unfolding walk
  find_all root prefix = collected (walk root prefix)

  -- A write through a pointer to the node at a path; pointers to nodes are their paths.
  unfoldable pub modify_at : List ℕ → (Node A → Node A) → Node A → Node A
  modify_at [] f n = f n
  modify_at (val ∷ rest) f (node v d c p ch w) = elim (get_child val ch) [
    | none ↦ node v d c p ch w
    | some next ↦ node v d c p (set_child val (modify_at rest f next) ch) w
  ]

  -- The loop of `Del`: `node` (nil for a missing path) and `lastBranch`. `none` is a panic: a field
  -- of a nil node, or `bt[index+1]` out of range.
  unfoldable pub del_loop :
      Option (Node A) → List ℕ → List ℕ → Branch → Option (Option (Node A) × Branch)
  del_loop n path [] last = some (n, last)
  del_loop none path (val ∷ rest) last = none
  del_loop (some (node v d c p ch w)) path (val ∷ rest) last = elim (get_child val ch) [
    | none ↦ del_loop none (path ++ val ∷ []) rest last
    | some next ↦ elim (ltb 1 (count next)) [
      | false ↦ del_loop (some next) (path ++ val ∷ []) rest last
      | true ↦ elim rest [
        | [] ↦ none
        | after ∷ _ ↦ del_loop (some next) (path ++ val ∷ []) rest (some (path ++ val ∷ [], after))
      ]
    ]
  ]

  abbrev pub unword : Node A → Node A
  unword (node v d c p ch w) = node v d c p ch false

  -- `delete(lastBranch.Child, delVal); lastBranch.Count -= 1`
  abbrev pub cut : ℕ → Node A → Node A
  cut val (node v d c p ch w) = node v d (c - 1) p (delete_child val ch) w

  -- The end of `Del`, once the loop has run.
  unfoldable pub del_at : Node A → ℕ → List ℕ → Option (Node A) → Branch → Option (Node A)
  unfolding modify_at
  del_at root first str none last = none
  del_at root first str (some n) last =
      if ltb 0 (count n)
      then some (modify_at str unword root)
      else let (path, val) = branch_or_root last first in some (modify_at path (cut val) root)

  abbrev pub del_after : Node A → ℕ → List ℕ → Option (Option (Node A) × Branch) → Option (Node A)
  del_after root first str none = none
  del_after root first str (some (n, last)) = del_at root first str n last

  unfoldable pub del : Node A → List ℕ → Option (Node A)
  unfolding del_loop del_at
  del root [] = some root
  del root (first ∷ rest) =
      del_after root first (first ∷ rest) (del_loop (some root) [] (first ∷ rest) none)
