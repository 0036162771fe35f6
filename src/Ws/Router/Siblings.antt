-- ===== src/Ws/Router/Siblings.antt =====
-- Two routers made from one router by `Use` or `Group` (ws/router.go), and their shared arrays.
use aqi.Prelude.{
  ℕ, ◌+◌, ◌≤◌, ◌<◌, ◌≡◌, refl, sym, ap, ◌∙◌, String, List, [], ◌∷◌, ◌++◌, some, length, arith,
}
use aqi.Ws.Client.{◌+s◌}
use aqi.Ws.Router.{
  Slice, Arrays, Routers, Routing, elements, append, join, full_name, use_handlers, group,
}
use aqi.Ws.Router.Append.{IsValid, append-elements, append_keeps, append_in_place}

append_siblings {ℓ} :
    {A : Type ℓ} (grow : ℕ → ℕ → ℕ) (s : Slice) (xs ys : List A) (m : Arrays A)
    → IsValid m s
    → s.len + length xs ≤ s.cap
    → length xs ≡ length ys
    → (let (s1, m1) = append grow s xs m in let (s2, m2) = append grow s ys m1 in elements m2 s1)
      ≡ elements m s ++ ys
append_siblings grow s xs ys m v room same =
    let (s1, m1) = append grow s xs m in
    let (s2, m2) = append grow s ys m1 in
    let (kept, v1) = append_keeps grow s s xs m v v (λ h e. omega arith) in
    let first : s1 ≡ record s { len = s.len + length xs } =
      ap (λ r. r.0) (append_in_place grow s xs m room) in
    let second : s2 ≡ record s { len = s.len + length ys } =
      ap (λ r. r.0) (append_in_place grow s ys m1 (omega (arith, room, same))) in
    ap (elements m2) (first ∙ ap (λ n. record s { len = s.len + n }) same ∙ sym second)
    ∙ append-elements grow s ys m1 v1
    ∙ ap (λ l. l ++ ys) kept

pub full_name_in :
    (r : Routers) (name : String) (w : Routing) (arr : ℕ)
    → r.groups.array ≡ some arr
    → full_name r name w ≡ join (elements w.group_arrays r.groups) +s "." +s name
unfolding full_name
full_name_in r name w arr e = rw e refl

module _ (grow : ℕ → ℕ → ℕ) (r : Routers) (w : Routing) where
  -- Where the array of a router's groups has room, a second `Group` on that router renames the
  -- first one: what the first then adds is registered under the second's name.
  pub group_siblings :
      (a b name : String) (arr : ℕ)
      → IsValid w.group_arrays r.groups
      → r.groups.array ≡ some arr
      → r.groups.len < r.groups.cap
      → (let (r1, w1) = group grow r a w in
          let (r2, w2) = group grow r b w1 in full_name r1 name w2)
        ≡ join (elements w.group_arrays r.groups ++ b ∷ []) +s "." +s name
  unfolding group
  group_siblings a b name arr v e room =
      let (s1, m1) = append grow r.groups (a ∷ []) w.group_arrays in
      let (s2, m2) = append grow r.groups (b ∷ []) m1 in
      let first : s1 ≡ record r.groups { len = r.groups.len + 1 } =
        ap (λ p. p.0)
          (append_in_place grow r.groups (a ∷ []) w.group_arrays (omega (arith, room))) in
      full_name_in (record r { groups = s1 }) name (record w { group_arrays = m2 }) arr
        (ap (λ s. s.array) first ∙ e)
      ∙ ap (λ l. join l +s "." +s name)
          (append_siblings grow r.groups (a ∷ []) (b ∷ []) w.group_arrays v (omega (arith, room))
            refl)

  -- Where the array of a router's handlers has room, a second `Use` on that router replaces the
  -- handlers of the first one, if it has as many.
  pub use_siblings :
      (xs ys : List ℕ)
      → IsValid w.handler_arrays r.handler_members
      → r.handler_members.len + length xs ≤ r.handler_members.cap
      → length xs ≡ length ys
      → (let (r1, w1) = use_handlers grow r xs w in
          let (r2, w2) = use_handlers grow r ys w1 in elements w2.handler_arrays r1.handler_members)
        ≡ elements w.handler_arrays r.handler_members ++ ys
  unfolding use_handlers
  use_siblings xs ys v room same =
      append_siblings grow r.handler_members xs ys w.handler_arrays v room same
