-- ===== src/Utils/Trie/Examples.antt =====
-- Runs of utils/tree/trie_tree.go on small tries.
use mathlib.Core.List.{Memᴰ}
use aqi.Prelude.{ℕ, ◌≡◌, ◌↔◌, refl, true, false, List, [], ◌∷◌, some}
use aqi.Utils.Trie.{Node, new_node, insert, walk, find, find_all, collect, del}
use aqi.Utils.Trie.Insertion.{find-insert}
use aqi.Utils.Trie.WellFormed.{IsWellFormed, insert-IsWellFormed}
use aqi.Utils.Trie.Collection.{find_all_complete, find_all_sound}
use aqi.Utils.Trie.Deletion.Answers.{find-del_self, find-del_other}
use aqi.Utils.Trie.Deletion.Domain.{CanDelete, del-CanDelete}

abbrev ab : List ℕ
ab = 97 ∷ 98 ∷ []

abbrev abc : List ℕ
abc = 97 ∷ 98 ∷ 99 ∷ []

abbrev empty : Node ℕ
empty = new_node 0 0

-- Holds "ab" and its extension "abc".
abbrev nested : Node ℕ
nested = insert (insert empty ab 1) abc 2

-- Holds "ab" and "ac".
abbrev forked : Node ℕ
forked = insert (insert empty ab 1) (97 ∷ 99 ∷ []) 2

empty-IsWellFormed : IsWellFormed empty
empty-IsWellFormed = (refl, tt)

nested-IsWellFormed : IsWellFormed nested
nested-IsWellFormed =
    insert-IsWellFormed (insert empty ab 1) abc 2
      (insert-IsWellFormed empty ab 1 empty-IsWellFormed)

forked-IsWellFormed : IsWellFormed forked
forked-IsWellFormed =
    insert-IsWellFormed (insert empty ab 1) (97 ∷ 99 ∷ []) 2
      (insert-IsWellFormed empty ab 1 empty-IsWellFormed)

find-insert_example : find (insert empty ab 1) ab ≡ (true, some 1)
find-insert_example = find-insert empty 97 (98 ∷ []) ab 1

insert-IsWellFormed_example : IsWellFormed (insert empty ab 1)
insert-IsWellFormed_example = insert-IsWellFormed empty ab 1 empty-IsWellFormed

find_all_complete_example : Memᴰ (some 2) (find_all nested (97 ∷ []))
unfolding find insert
find_all_complete_example = find_all_complete nested (97 ∷ []) (some 2) (98 ∷ 99 ∷ []) refl

nested_all : find_all nested (97 ∷ []) ≡ some 1 ∷ some 2 ∷ []
unfolding find_all insert collect
nested_all = refl

find_all_sound_example : (str : List ℕ) × (find nested (97 ∷ str) ≡ (true, some 1))
unfolding find_all insert collect
find_all_sound_example =
    find_all_sound nested (97 ∷ []) (some 1) nested-IsWellFormed (Memᴰ.head refl)

forked_deletes : (t : Node ℕ) × (del forked ab ≡ some t)
unfolding del insert
forked_deletes = (_, refl)

find-del_self_example : (find forked_deletes.0 ab).0 ≡ false
find-del_self_example = find-del_self forked forked_deletes.0 97 (98 ∷ []) forked_deletes.1

find-del_other_example : find forked_deletes.0 (97 ∷ 99 ∷ []) ≡ find forked (97 ∷ 99 ∷ [])
find-del_other_example =
    find-del_other forked forked_deletes.0 97 (98 ∷ []) (97 ∷ 99 ∷ []) forked-IsWellFormed
      forked_deletes.1 refl

del-CanDelete_example :
    ((t : Node ℕ) × (del forked (97 ∷ []) ≡ some t)) ↔ CanDelete (walk forked (97 ∷ []))
del-CanDelete_example = del-CanDelete forked 97 []
