-- ===== src/Ws/Router.antt =====
-- Routes: ws/router.go and ws/manager.go. `Routers` is passed by value, and its two slices share
-- arrays with the routers they were appended to; so the arrays are a heap. Handlers are numbers.
pub mod Append
pub mod Siblings
pub mod Routes
mod Examples
use mathlib.Core.Option
use aqi.Prelude.{
  ℕ, ◌+◌, Bool, true, false, String, List, [], ◌∷◌, ◌++◌, Option, none, some, comparable_string,
  length, take, drop, leb, if◌then◌else◌,
}
use aqi.Prelude.Dict.{Dict, get, put}
use aqi.Ws.Types.{update}
use aqi.Ws.Client.{◌+s◌}

-- A slice from the start of its array; `none` for nil.
pub record Slice : Type 0 where
  pub array : Option ℕ
  pub len : ℕ
  pub cap : ℕ

-- What was written to the arrays.
pub record Arrays {ℓ} (A : Type ℓ) : Type ℓ where
  pub cells : ℕ → List A
  pub next : ℕ

abbrev pub nil_slice : Slice
nil_slice = record { array = none; len = 0; cap = 0 }

abbrev pub elements {ℓ} : {A : Type ℓ} → Arrays A → Slice → List A
elements m s = elim s.array [ none ↦ [] | some a ↦ take s.len (m.cells a) ]

abbrev pub write {ℓ} : {A : Type ℓ} → Option ℕ → ℕ → List A → Arrays A → Arrays A
write none n xs m = m
write (some a) n xs m =
    let old = m.cells a in
    record m { cells = update m.cells a (take n old ++ (xs ++ drop (n + length xs) old)) }

-- Go's `append(s, xs...)`: in place where the capacity is enough, else on a new array, whose
-- capacity `grow` chooses from the old one and the length that is needed.
abbrev pub append {ℓ} : {A : Type ℓ} → (ℕ → ℕ → ℕ) → Slice → List A → Arrays A → Slice × Arrays A
append grow s xs m =
    let n = s.len + length xs in
    if leb n s.cap then (record s { len = n }, write s.array s.len xs m) else (
      record { array = some m.next; len = n; cap = grow s.cap n },
      record m { cells = update m.cells m.next (elements m s ++ xs); next = m.next + 1 },
    )

pub record Routers : Type 0 where
  pub handler_members : Slice
  pub groups : Slice

-- `ActionManager`, and the arrays.
pub record Routing : Type 0 where
  pub handler_map : Dict String (List ℕ)
  pub handler_arrays : Arrays ℕ
  pub group_arrays : Arrays String

abbrev pub new_router : Routers
new_router = record { handler_members = nil_slice; groups = nil_slice }

-- `strings.Join(names, ".")`
unfoldable pub join : List String → String
join [] = ""
join (s ∷ []) = s
join (s ∷ t ∷ rest) = s +s "." +s join (t ∷ rest)

-- The name that `Add` registers.
unfoldable pub full_name : Routers → String → Routing → String
full_name r name w = elim r.groups.array [
  | none ↦ name
  | some a ↦ join (elements w.group_arrays r.groups) +s "." +s name
]

-- `Has` and `Handlers` of the manager
unfoldable pub has : String → Routing → Bool
has name w = elim (get w.handler_map name) [ none ↦ false | some chain ↦ true ]

unfoldable pub handlers : String → Routing → List ℕ
handlers name w = Option.get_or (get w.handler_map name) []

-- `Add`; `none` is its panic.
unfoldable pub add : Routers → String → List ℕ → Routing → Option Routing
add r name fn w =
    let full = full_name r name w in
    let chains = elements w.handler_arrays r.handler_members in
    if has full w
    then none
    else some (record w { handler_map = put w.handler_map full (chains ++ fn) })

-- `Use`
unfoldable pub use_handlers : (ℕ → ℕ → ℕ) → Routers → List ℕ → Routing → Routers × Routing
use_handlers grow r middleware w =
    let (s, m) = append grow r.handler_members middleware w.handler_arrays in
    (record r { handler_members = s }, record w { handler_arrays = m })

-- `Group`
unfoldable pub group : (ℕ → ℕ → ℕ) → Routers → String → Routing → Routers × Routing
group grow r name w =
    let (s, m) = append grow r.groups (name ∷ []) w.group_arrays in
    (record r { groups = s }, record w { group_arrays = m })
