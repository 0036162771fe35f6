-- ===== src/Ws/Router/Routes.antt =====
-- What `Add`, `Use` and `Group` of ws/router.go do to the routes.
use mathlib.Core.Option
use aqi.Prelude.{
  Bool-cases, ℕ, ◌+◌, ◌≤◌, ◌≡◌, refl, ap, subst, ◌∙◌, Bool, true, false, String, List, [], ◌∷◌,
  ◌++◌, Option, none, some, comparable_string, comparable_nat, if◌then◌else◌, ◌==◌, inl, inr,
  Option-cases, arith,
}
use aqi.Prelude.Dict.{get, get-put}
use aqi.Ws.Client.{◌+s◌}
use aqi.Ws.Router.{
  Slice, Arrays, Routers, Routing, elements, append, join, full_name, has, handlers, add,
  use_handlers, group,
}
use aqi.Ws.Router.Append.{
  IsValid, append-elements, append_keeps, append_in_place, append_grown, le_or_lt,
}
use aqi.Ws.Router.Siblings.{full_name_in}

-- `Add` panics exactly on a name that has a route; else the name runs the router's handlers and
-- then the given ones, and every other name runs what it ran before.
pub add-handlers :
    (r : Routers) (name other : String) (fn : List ℕ) (w : Routing)
    → Option.map (handlers other) (add r name fn w) ≡ (
        if has (full_name r name w) w
        then none
        else some (
            if full_name r name w == other
            then elements w.handler_arrays r.handler_members ++ fn
            else handlers other w))
unfolding add handlers
add-handlers r name other fn w =
    let full = full_name r name w in
    let chain = elements w.handler_arrays r.handler_members ++ fn in
    elim (Bool-cases (has full w)) [
      | inl taken ↦ rw (taken, if◌then◌else◌) refl
      | inr free ↦
          rw (free, if◌then◌else◌)
            (ap (λ o. some (Option.get_or o [])) (get-put w.handler_map full other chain)
              ∙ get_or_if (full == other) chain (get w.handler_map other))
    ]
  where
    get_or_if :
        (b : Bool) (l : List ℕ) (o : Option (List ℕ))
        → some (Option.get_or (if b then some l else o) [])
          ≡ some (if b then l else Option.get_or o [])
    get_or_if true l o = refl
    get_or_if false l o = refl

module _ (grow : ℕ → ℕ → ℕ) (r : Routers) (w : Routing) where
  append_array :
      (s : Slice) (x : String) (m : Arrays String)
      → IsValid m s
      → (arr : ℕ) × ((append grow s (x ∷ []) m).0.array ≡ some arr)
  append_array s x m v = elim (le_or_lt (s.len + 1) s.cap) [
    | inr over ↦ (m.next, ap (λ p. p.0.array) (append_grown grow s (x ∷ []) m over))
    | inl room ↦ elim (Option-cases s.array) [
      | inl e ↦ absurd (
          omega (
            arith,
            room,
            (subst (λ o. IsValid m (record { array = o; len = s.len; cap = s.cap })) e v).1,
          ))
      | inr (a, e) ↦ (a, ap (λ p. p.0.array) (append_in_place grow s (x ∷ []) m room) ∙ e)
    ]
  ]

  -- A router that `Group` makes registers its names under the group's name, after the names of the
  -- groups around it.
  pub group-full_name :
      (a name : String)
      → IsValid w.group_arrays r.groups
      → (let (r1, w1) = group grow r a w in full_name r1 name w1)
        ≡ join (elements w.group_arrays r.groups ++ a ∷ []) +s "." +s name
  unfolding group
  group-full_name a name v =
      let (s1, m1) = append grow r.groups (a ∷ []) w.group_arrays in
      let (arr, e) = append_array r.groups a w.group_arrays v in
      full_name_in (record r { groups = s1 }) name (record w { group_arrays = m1 }) arr e
      ∙ ap (λ l. join l +s "." +s name) (append-elements grow r.groups (a ∷ []) w.group_arrays v)

  -- `Group` renames no router whose groups are at most as many as those of the router it is called
  -- on.
  pub group_keeps :
      (t : Routers) (a name : String)
      → IsValid w.group_arrays r.groups
      → IsValid w.group_arrays t.groups
      → t.groups.len ≤ r.groups.len
      → (let (r1, w1) = group grow r a w in full_name t name w1) ≡ full_name t name w
  unfolding group full_name
  group_keeps t a name v u short =
      let (s1, m1) = append grow r.groups (a ∷ []) w.group_arrays in
      let (kept, ok) =
        append_keeps grow r.groups t.groups (a ∷ []) w.group_arrays v u (λ h e. short) in
      ap (λ l. elim t.groups.array [ none ↦ name | some b ↦ join l +s "." +s name ]) kept

  -- The handlers of a router that `Use` makes.
  pub use_handlers-elements :
      (xs : List ℕ)
      → IsValid w.handler_arrays r.handler_members
      → (let (r1, w1) = use_handlers grow r xs w in elements w1.handler_arrays r1.handler_members)
        ≡ elements w.handler_arrays r.handler_members ++ xs
  unfolding use_handlers
  use_handlers-elements xs v = append-elements grow r.handler_members xs w.handler_arrays v
