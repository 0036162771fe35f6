-- ===== src/Ws/Stack/Order.antt =====
-- The stack of ws/client_stack.go gives back what it got, the last first.
use mathlib.Core.List.{foldl, reverse, reverse-cons, append_assoc, append-nil}
use aqi.Prelude.{
  ℕ, zero, suc, ◌-◌, ◌+◌, ◌==◌, comparable_nat, false, List, [], ◌∷◌, ◌++◌, Option, none, some, ◌≡◌,
  refl, ap, ◌∙◌, sym, length, length-append, if◌then◌else◌, arith,
}
use aqi.Ws.Values.{Any}
use aqi.Ws.Stack.{Stack, new_stack, push_value, pop_value}

abbrev pub push_all : List Any → Stack → Stack
push_all xs s = foldl (λ t v. push_value v t) s xs

abbrev and_then : Any → Option (List Any × Stack) → Option (List Any × Stack)
and_then v none = none
and_then v (some (vs, s)) = some (v ∷ vs, s)

abbrev after_pop :
    (Stack → Option (List Any × Stack)) → Option (Any × Stack) → Option (List Any × Stack)
after_pop rest none = none
after_pop rest (some (v, t)) = and_then v (rest t)

-- What a number of pops return.
abbrev pub pop_all : ℕ → Stack → Option (List Any × Stack)
pop_all zero s = some ([], s)
pop_all (suc n) s = after_pop (pop_all n) (pop_value s)

-- The stack with these nodes.
abbrev stack_of : List Any → Stack
stack_of vs = record { top = vs; size = length vs }

length-reverse : (xs : List Any) → length (reverse xs) ≡ length xs
length-reverse [] = refl
length-reverse (x ∷ xs) =
    ap length (reverse-cons x xs)
    ∙ length-append (reverse xs) (x ∷ [])
    ∙ omega (arith, length-reverse xs)

pop_value-stack_of :
    (v : Any) (vs : List Any) → pop_value (stack_of (v ∷ vs)) ≡ some (v, stack_of vs)
unfolding pop_value
pop_value-stack_of v vs =
    let some_left : (suc (length vs) == 0) ≡ false = ground (arith) in
    let one_less : suc (length vs) - 1 ≡ length vs = omega arith in
    rw (some_left, one_less, if◌then◌else◌) refl

pop_all-stack_of : (vs : List Any) → pop_all (length vs) (stack_of vs) ≡ some (vs, new_stack)
pop_all-stack_of [] = refl
pop_all-stack_of (v ∷ vs) =
    ap (after_pop (pop_all (length vs))) (pop_value-stack_of v vs)
    ∙ ap (and_then v) (pop_all-stack_of vs)

push_all-stack_of : (xs vs : List Any) → push_all xs (stack_of vs) ≡ stack_of (reverse xs ++ vs)
unfolding push_value
push_all-stack_of [] vs = refl
push_all-stack_of (x ∷ xs) vs =
    let one_more : length vs + 1 ≡ suc (length vs) = omega arith in
    ap (λ n. push_all xs (record { top = x ∷ vs; size = n })) one_more
    ∙ push_all-stack_of xs (x ∷ vs)
    ∙ ap stack_of
        (sym (ap (λ l. l ++ vs) (reverse-cons x xs) ∙ append_assoc (reverse xs) (x ∷ []) vs))

-- As many pops as there were pushes on an empty stack return what was pushed, in reverse order, and
-- leave an empty stack; no pop panics.
pub pop_all-push_all :
    (xs : List Any) → pop_all (length xs) (push_all xs new_stack) ≡ some (reverse xs, new_stack)
pop_all-push_all xs =
    let pushed : push_all xs new_stack ≡ stack_of (reverse xs) =
      push_all-stack_of xs [] ∙ ap stack_of (append-nil (reverse xs)) in
    ap (pop_all (length xs)) pushed
    ∙ ap (λ n. pop_all n (stack_of (reverse xs))) (sym (length-reverse xs))
    ∙ pop_all-stack_of (reverse xs)
