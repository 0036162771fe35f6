-- ===== src/Ws/Stack/Examples.antt =====
-- Two values on the stack (ws/client_stack.go).
use aqi.Prelude.{[], ◌∷◌, some, ◌≡◌, refl}
use aqi.Ws.Values.{nil, boolean_any}
use aqi.Ws.Stack.{new_stack, pop_value}
use aqi.Ws.Stack.Order.{push_all, pop_all, pop_all-push_all}
use aqi.Prelude.{true, false}

pop_all-push_all_example :
    pop_all 2 (push_all (boolean_any true ∷ boolean_any false ∷ []) new_stack)
    ≡ some (boolean_any false ∷ boolean_any true ∷ [], new_stack)
pop_all-push_all_example = pop_all-push_all (boolean_any true ∷ boolean_any false ∷ [])

nothing_to_pop : pop_value new_stack ≡ some (nil, new_stack)
unfolding pop_value
nothing_to_pop = refl
