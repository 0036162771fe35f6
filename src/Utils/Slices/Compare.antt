-- ===== src/Utils/Slices/Compare.antt =====
-- `IdCompare` of utils/slice_compare.go splits two id lists by membership.
use mathlib.Core.List.{append_assoc, append-nil}
use aqi.Prelude.{
  ℕ, ◌≡◌, refl, ◌∙◌, Bool, true, not, ◌||◌, List, [], ◌∷◌, ◌++◌, comparable_nat, contains,
  contains-filter, filter, arith,
}
use aqi.Utils.Slices.{Scan, scan_loop, decrease_loop, id_compare}

abbrev kept : List ℕ → List ℕ → List ℕ
kept m = filter (λ id. contains id m)

abbrev dropped : List ℕ → List ℕ → List ℕ
dropped m = filter (λ id. not (contains id m))

change-scan_loop : (m ids : List ℕ) (s : Scan) → (scan_loop m ids s).change ≡ s.change ++ kept m ids
unfolding scan_loop
change-scan_loop m [] s = rw append-nil
change-scan_loop m (id ∷ ids) s =
    change-scan_loop m ids _ ∙ ground (arith, append_assoc s.change (id ∷ []) (kept m ids))

increase-scan_loop :
    (m ids : List ℕ) (s : Scan) → (scan_loop m ids s).increase ≡ s.increase ++ dropped m ids
unfolding scan_loop
increase-scan_loop m [] s = rw append-nil
increase-scan_loop m (id ∷ ids) s =
    increase-scan_loop m ids _ ∙ ground (arith, append_assoc s.increase (id ∷ []) (dropped m ids))

-- The keys of `sameMap` after the loop are the ids of both lists.
same-scan_loop :
    (m ids : List ℕ) (s : Scan) (a : ℕ)
    → contains a (scan_loop m ids s).same ≡ (contains a s.same || contains a (kept m ids))
unfolding scan_loop
same-scan_loop m [] s a = ground arith
same-scan_loop m (id ∷ ids) s a = same-scan_loop m ids _ a ∙ ground arith

decrease_loop-dropped :
    (same ids decrease : List ℕ) → decrease_loop same ids decrease ≡ decrease ++ dropped same ids
unfolding decrease_loop
decrease_loop-dropped same [] decrease = rw append-nil
decrease_loop-dropped same (id ∷ ids) decrease =
    decrease_loop-dropped same ids _
    ∙ ground (arith, append_assoc decrease (id ∷ []) (dropped same ids))

-- Two tests that agree on the elements of a list keep the same elements.
filter_congr_on :
    (p q : ℕ → Bool) (xs : List ℕ)
    → ((a : ℕ) → contains a xs ≡ true → p a ≡ q a)
    → filter p xs ≡ filter q xs
filter_congr_on p q [] h = refl
filter_congr_on p q (x ∷ xs) h =
    let rest = filter_congr_on p q xs (λ a m. h a (ground arith)) in
    let first = h x (ground arith) in ground (arith, rest, first)

dropped-same :
    (ids1 ids2 : List ℕ) (a : ℕ)
    → contains a ids1 ≡ true
    → not (contains a (scan_loop ids1 ids2 (record { change = []; increase = []; same = [] })).same)
      ≡ not (contains a ids2)
dropped-same ids1 ids2 a m =
    rw (same-scan_loop ids1 ids2 (record { change = []; increase = []; same = [] }) a)
      (rw (contains-filter (λ id. contains id ids1) a ids2) (ground arith))

-- `IdCompare`: `change` is what stands in both lists and `increase` what only the second has, in
-- the order of the second; `decrease` is what only the first has, in its order.
pub id_compare_splits :
    (ids1 ids2 : List ℕ)
    → ((id_compare ids1 ids2).change ≡ filter (λ id. contains id ids1) ids2)
      × ((id_compare ids1 ids2).increase ≡ filter (λ id. not (contains id ids1)) ids2)
      × ((id_compare ids1 ids2).decrease ≡ filter (λ id. not (contains id ids2)) ids1)
unfolding id_compare
id_compare_splits ids1 ids2 = (
  change-scan_loop ids1 ids2 _,
  increase-scan_loop ids1 ids2 _,
  decrease_loop-dropped _ ids1 [] ∙ filter_congr_on _ _ ids1 (λ a m. dropped-same ids1 ids2 a m),
)
