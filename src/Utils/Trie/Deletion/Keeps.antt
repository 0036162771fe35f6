-- ===== src/Utils/Trie/Deletion/Keeps.antt =====
-- `Del` of utils/tree/trie_tree.go keeps the invariant of the trie.
use aqi.Prelude.{◌≡◌}
use aqi.Utils.Trie.{Node, depth}
use aqi.Utils.Trie.WellFormed.{IsWellFormed, val}
use aqi.Utils.Trie.Deletion.Effect.{Effect}

module _ {A : Type 0} where
  -- Two versions of a node that its parent cannot tell apart.
  abbrev Keeps : Node A → Node A → Type 0
  Keeps n n' = IsWellFormed n' × (depth n' ≡ depth n) × (val n' ≡ val n)
