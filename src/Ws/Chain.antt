-- ===== src/Ws/Chain.antt =====
-- The handler chain of ws/context.go: `Next` and `Abort`. A handler is the list of what it does:
-- an effect, which the trace records by its number, or a call of `Next` or of `Abort`.
pub mod Kinds
pub mod Onion
pub mod Limits
mod Examples
use aqi.Prelude.{
  ℕ, zero, suc, ◌+◌, ◌%◌, Bool, true, false, List, [], ◌∷◌, ◌++◌, Option, none, some, length,
  get_elem?, ltb, leb,
}

pub data Op : Type 0 where
  act : ℕ → Op
  next : Op
  abort : Op

abbrev pub Handler : Type 0
Handler = List Op

-- `index` is an int8, given by its bit pattern.
pub record Context : Type 0 where
  pub index : ℕ
  pub trace : List ℕ

pub data Outcome : Type 0 where
  done : Context → Outcome
  panic : Outcome
  out_of_fuel : Outcome

-- `math.MaxInt8 / 2`
abbrev pub abort_index : ℕ
abort_index = 63

-- `c.index++`
abbrev pub bump : Context → Context
bump c = record c { index = (c.index + 1) % 256 }

-- `a < b` on int8
abbrev pub lt_int8 : ℕ → ℕ → Bool
lt_int8 a b = ltb ((a + 128) % 256) ((b + 128) % 256)

infixl 5 ◌>>=◌
abbrev pub ◌>>=◌ : Outcome → (Context → Outcome) → Outcome
done c >>= f = f c
panic >>= f = panic
out_of_fuel >>= f = out_of_fuel

-- `c.handlers[c.index]`; a negative index and one past the end panic.
abbrev pub handler_at : List Handler → ℕ → Option Handler
handler_at hs i = elim (ltb i 128) [ true ↦ get_elem? hs i | false ↦ none ]

unfoldable mutual
  -- The body of a handler.
  pub run_ops : ℕ → List Handler → List Op → Context → Outcome
  run_ops zero hs ops c = out_of_fuel
  run_ops (suc f) hs [] c = done c
  run_ops (suc f) hs (act n ∷ ops) c = run_ops f hs ops (record c { trace = c.trace ++ n ∷ [] })
  run_ops (suc f) hs (abort ∷ ops) c = run_ops f hs ops (record c { index = abort_index })
  run_ops (suc f) hs (next ∷ ops) c = next_loop f hs (bump c) >>= run_ops f hs ops

  -- The loop of `Next`; `int8(len(c.handlers))` wraps.
  pub next_loop : ℕ → List Handler → Context → Outcome
  next_loop zero hs c = out_of_fuel
  next_loop (suc f) hs c = elim (lt_int8 c.index (length hs % 256)) [
    | false ↦ done c
    | true ↦ elim (handler_at hs c.index) [
      | none ↦ panic
      | some ops ↦ run_ops f hs ops c >>= λ c'. next_loop f hs (bump c')
    ]
  ]

-- The end of `Dispatcher`: `ctx.handlers[0](ctx); ctx.Next()` on a new context.
unfoldable pub run_chain : ℕ → List Handler → Outcome
unfolding run_ops
run_chain f [] = panic
run_chain f (first ∷ rest) =
    run_ops f (first ∷ rest) first (record { index = 0; trace = [] }) >>= λ c.
    next_loop f (first ∷ rest) (bump c)
