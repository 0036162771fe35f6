-- ===== src/Prelude/Dict.antt =====
-- A Go map (or sync.Map) as an association list; the order of the list stands for the order in
-- which a loop ranges over the map.
use mathlib.Core.Path.{◌≡◌, refl}
use mathlib.Core.Option.{Option, none, some}
use mathlib.Core.List.{List, [], ◌∷◌}
use native.Mathlib.Omega.{arith}
use aqi.Prelude.Tests.{Comparable, ◌==◌, if◌then◌else◌}

abbrev pub Dict {ℓ κ} : Type ℓ → Type κ → Type (ℓ ⊔ κ)
Dict K V = List (K × V)

module _ {ℓ κ} {K : Type ℓ} {V : Type κ} ⦃e : Comparable K⦄ where
  -- `v, ok := m[k]`
  unfoldable pub get : Dict K V → K → Option V
  get [] k = none
  get ((j, v) ∷ d) k = if j == k then some v else get d k

  -- `m[k] = v`
  unfoldable pub put : Dict K V → K → V → Dict K V
  put [] k v = (k, v) ∷ []
  put ((j, w) ∷ d) k v = if j == k then (k, v) ∷ d else (j, w) ∷ put d k v

  -- `delete(m, k)`
  unfoldable pub remove : Dict K V → K → Dict K V
  remove [] k = []
  remove ((j, v) ∷ d) k = let rest = remove d k in if j == k then rest else (j, v) ∷ rest

  pub get-put :
      (d : Dict K V) (k j : K) (v : V) → get (put d k v) j ≡ (if k == j then some v else get d j)
  unfolding get put
  get-put [] k j v = refl
  get-put ((i, w) ∷ d) k j v =
      ground (arith, e.equal_iff k j, e.equal_iff i k, e.equal_iff i j, get-put d k j v)

  pub get-remove :
      (d : Dict K V) (k j : K) → get (remove d k) j ≡ (if k == j then none else get d j)
  unfolding get remove
  get-remove [] k j = ground arith
  get-remove ((i, w) ∷ d) k j =
      ground (arith, e.equal_iff k j, e.equal_iff i k, e.equal_iff i j, get-remove d k j)

pub ruleset dict_laws = (get-put, get-remove)

pub get-empty {ℓ κ} : {K : Type ℓ} {V : Type κ} ⦃e : Comparable K⦄ (k : K) → get {V = V} [] k ≡ none
unfolding get
get-empty k = refl
