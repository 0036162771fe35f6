-- ===== src/Utils/Slices.antt =====
-- utils/slice_find.go, utils/slice_unique.go, utils/slice_compare.go: loops over a slice with a
-- map as a set of the keys seen. The set is the list of its keys.
pub mod Unique
pub mod Compare
mod Examples
use aqi.Prelude.{
  ℕ, zero, suc, ◌+◌, Bool, true, false, List, [], ◌∷◌, ◌++◌, Comparable, comparable_nat, ◌==◌,
  contains, if◌then◌else◌,
}
use aqi.Prelude.Int.{ℤ, pos, negsuc}

module _ {ℓ} {A : Type ℓ} ⦃e : Comparable A⦄ where
  -- The loop of `UniqueSlice`: the keys of `seen`, and the slice built so far.
  unique_loop : List A → List A → List A → List A
  unique_loop [] seen unique = unique
  unique_loop (element ∷ rest) seen unique = elim (contains element seen) [
    | true ↦ unique_loop rest seen unique
    | false ↦ unique_loop rest (element ∷ seen) (unique ++ element ∷ [])
  ]

  unfoldable pub unique_slice : List A → List A
  unfolding unique_loop
  unique_slice input = unique_loop input [] []

  -- The loop of `SliceFindIndex` from index `index` on; `break` ends it at the first hit.
  find_loop : List A → A → ℕ → ℤ
  find_loop [] a index = negsuc 0
  find_loop (element ∷ rest) a index = elim (element == a) [
    | true ↦ pos index
    | false ↦ find_loop rest a (index + 1)
  ]

  unfoldable pub slice_find_index : List A → A → ℤ
  unfolding find_loop
  slice_find_index input a = find_loop input a 0

-- The three results of `IdCompare`.
pub record IdChanges : Type 0 where
  pub change : List ℕ
  pub increase : List ℕ
  pub decrease : List ℕ

-- `for _, id := range ids2`: the results so far, and the keys of `sameMap`.
pub record Scan : Type 0 where
  pub change : List ℕ
  pub increase : List ℕ
  pub same : List ℕ

scan_loop : List ℕ → List ℕ → Scan → Scan
scan_loop m [] s = s
scan_loop m (id ∷ ids) s = scan_loop m ids (
    if contains id m
    then record s { change = s.change ++ id ∷ []; same = id ∷ s.same }
    else record s { increase = s.increase ++ id ∷ [] })

decrease_loop : List ℕ → List ℕ → List ℕ → List ℕ
decrease_loop same [] decrease = decrease
decrease_loop same (id ∷ ids) decrease =
    decrease_loop same ids (if contains id same then decrease else decrease ++ id ∷ [])

unfoldable pub id_compare : List ℕ → List ℕ → IdChanges
unfolding scan_loop decrease_loop
id_compare ids1 ids2 =
    let s = scan_loop ids1 ids2 (record { change = []; increase = []; same = [] }) in
    record { change = s.change; increase = s.increase; decrease = decrease_loop s.same ids1 [] }
