-- ===== src/Ws/Router/Examples.antt =====
-- Routers at work; capacities double, as the Go runtime's do for short slices.
use aqi.Prelude.{
  ℕ, ◌+◌, ◌≡◌, refl, String, [], ◌∷◌, none, some, leb, if◌then◌else◌, comparable_string, arith,
}
use aqi.Prelude.Dict.{get}
use mathlib.Core.Option
use aqi.Ws.Router.{
  Routers, Routing, elements, append, join, full_name, new_router, add, has, handlers, use_handlers,
  group,
}
use aqi.Ws.Router.Siblings.{group_siblings, use_siblings}
use aqi.Ws.Router.Routes.{group-full_name, group_keeps, use_handlers-elements, add-handlers}

abbrev double : ℕ → ℕ → ℕ
double c n = if leb n (c + c) then c + c else n

-- The router of three nested groups, with handlers 1 to 3, and its arrays, which have room for one
-- more.
abbrev nested : Routers
nested = record {
  handler_members = record { array = some 0; len = 3; cap = 4 };
  groups = record { array = some 0; len = 3; cap = 4 };
}

abbrev arrays : Routing
arrays = record {
  handler_map = ("ping", 9 ∷ []) ∷ [];
  handler_arrays = record { cells = λ a. 1 ∷ 2 ∷ 3 ∷ []; next = 1 };
  group_arrays = record { cells = λ a. "api" ∷ "v1" ∷ "user" ∷ []; next = 1 };
}

-- Three calls of `Group` come to this slice.
three_groups :
    ◌≡◌ {A = ℕ × ℕ}
      (let (s1, m1) =
          append {A = String} double
            (record { array = none; len = 0; cap = 0 })
            ("api" ∷ [])
            (record { cells = λ a. []; next = 0 }) in
        let (s2, m2) = append double s1 ("v1" ∷ []) m1 in
        let (s3, m3) = append double s2 ("user" ∷ []) m2 in (s3.len, s3.cap))
      (3, 4)
three_groups = refl

group_siblings_example :
    (let (r1, w1) = group double nested "admin" arrays in
      let (r2, w2) = group double nested "public" w1 in full_name r1 "ban" w2)
    ≡ "api.v1.user.public.ban"
unfolding join
group_siblings_example =
    group_siblings double nested arrays "admin" "public" "ban" 0 (omega arith, omega arith) refl
      (omega arith)

use_siblings_example :
    (let (r1, w1) = use_handlers double nested (7 ∷ []) arrays in
      let (r2, w2) = use_handlers double nested (8 ∷ []) w1 in
      elements w2.handler_arrays r1.handler_members)
    ≡ 1 ∷ 2 ∷ 3 ∷ 8 ∷ []
use_siblings_example =
    use_siblings double nested arrays (7 ∷ []) (8 ∷ []) (omega arith, omega arith) (omega arith)
      refl

group-full_name_example :
    (let (r1, w1) = group double nested "admin" arrays in full_name r1 "ban" w1)
    ≡ "api.v1.user.admin.ban"
unfolding join
group-full_name_example =
    group-full_name double nested arrays "admin" "ban" (omega arith, omega arith)

group_keeps_example :
    (let (r1, w1) = group double nested "admin" arrays in full_name nested "list" w1)
    ≡ full_name nested "list" arrays
group_keeps_example =
    group_keeps double nested arrays nested "admin" "list" (omega arith, omega arith)
      (omega arith, omega arith) (omega arith)

use_handlers-elements_example :
    (let (r1, w1) = use_handlers double nested (7 ∷ 8 ∷ []) arrays in
      elements w1.handler_arrays r1.handler_members)
    ≡ 1 ∷ 2 ∷ 3 ∷ 7 ∷ 8 ∷ []
use_handlers-elements_example =
    use_handlers-elements double nested arrays (7 ∷ 8 ∷ []) (omega arith, omega arith)

add-handlers_example :
    Option.map (handlers "ban") (add new_router "ban" (4 ∷ []) arrays) ≡ some (4 ∷ [])
unfolding has full_name get
add-handlers_example = add-handlers new_router "ban" "ban" (4 ∷ []) arrays
