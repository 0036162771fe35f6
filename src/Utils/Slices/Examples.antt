-- ===== src/Utils/Slices/Examples.antt =====
-- The slice functions of utils/ at work.
use aqi.Prelude.{ℕ, ◌≡◌, List, [], ◌∷◌, comparable_nat, contains, HasNoRepeats}
use aqi.Utils.Slices.{unique_slice, slice_find_index, id_compare}
use aqi.Utils.Slices.Unique.{unique_slice-firsts, unique_slice_set, Finds, slice_find_index-Finds}
use aqi.Utils.Slices.Compare.{id_compare_splits}

abbrev tags : List ℕ
tags = 3 ∷ 1 ∷ 3 ∷ 2 ∷ 1 ∷ []

unique_slice-firsts_example : unique_slice tags ≡ 3 ∷ 1 ∷ 2 ∷ []
unique_slice-firsts_example = unique_slice-firsts tags

unique_slice_set_example :
    HasNoRepeats (unique_slice tags) × ((a : ℕ) → contains a (unique_slice tags) ≡ contains a tags)
unique_slice_set_example = unique_slice_set tags

slice_find_index-Finds_example : Finds tags 2 0 (slice_find_index tags 2)
slice_find_index-Finds_example = slice_find_index-Finds tags 2

id_compare_splits_example :
    ((id_compare (1 ∷ 2 ∷ 3 ∷ []) (3 ∷ 4 ∷ 2 ∷ [])).change ≡ 3 ∷ 2 ∷ [])
    × ((id_compare (1 ∷ 2 ∷ 3 ∷ []) (3 ∷ 4 ∷ 2 ∷ [])).increase ≡ 4 ∷ [])
    × ((id_compare (1 ∷ 2 ∷ 3 ∷ []) (3 ∷ 4 ∷ 2 ∷ [])).decrease ≡ 1 ∷ [])
id_compare_splits_example = id_compare_splits (1 ∷ 2 ∷ 3 ∷ []) (3 ∷ 4 ∷ 2 ∷ [])
