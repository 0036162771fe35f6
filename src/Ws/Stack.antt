-- ===== src/Ws/Stack.antt =====
-- ws/client_stack.go: the stack, with its nodes as a list.
pub mod Order
mod Examples
use aqi.Prelude.{
  ℕ, ◌-◌, ◌+◌, ◌==◌, comparable_nat, List, [], ◌∷◌, Option, none, some, if◌then◌else◌,
}
use aqi.Ws.Values.{Any, nil}

-- `Stack`; `top` is the last node and those before it.
pub record Stack : Type 0 where
  pub top : List Any
  pub size : ℕ

-- `NewStack`
abbrev pub new_stack : Stack
new_stack = record { top = []; size = 0 }

-- `Push`
unfoldable pub push_value : Any → Stack → Stack
push_value v s = record { top = v ∷ s.top; size = s.size + 1 }

-- A nil pointer where the size says that there is a node panics.
abbrev pub pop_node : List Any → ℕ → Option (Any × Stack)
pop_node [] size = none
pop_node (v ∷ rest) size = some (v, record { top = rest; size = size - 1 })

-- `Pop`: nil from an empty stack; none stands for a panic.
unfoldable pub pop_value : Stack → Option (Any × Stack)
pop_value s = if s.size == 0 then some (nil, s) else pop_node s.top s.size
