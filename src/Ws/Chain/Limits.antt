-- ===== src/Ws/Chain/Limits.antt =====
-- Chains that are longer than ws/context.go allows for: `index` is an int8.
use aqi.Prelude.{ℕ, zero, suc, ◌-◌, ◌%◌, ◌≡◌, ◌≤◌, ◌<◌, List, [], ◌∷◌, length, false, arith}
use aqi.Ws.Chain.{Handler, done, lt_int8, run_chain, next_loop, run_ops}
use aqi.Ws.Chain.Kinds.{acts, run_ops-acts, run_ops-end}

-- With 128 to 255 handlers, of which the first has effects alone, `int8(len)` is negative: only
-- the first handler runs.
pub run_chain-overflow :
    (ns : List ℕ) (rest : List Handler) (f : ℕ)
    → 127 ≤ length rest
    → length rest < 255
    → suc (length ns) ≤ f
    → run_chain f (acts ns [] ∷ rest) ≡ done (record { index = 1; trace = ns })
unfolding run_chain run_ops
run_chain-overflow ns rest zero low high fuel = absurd (omega (arith, fuel))
run_chain-overflow ns rest (suc f) low high fuel =
    let hs : List Handler = acts ns [] ∷ rest in
    let left : ℕ = suc f - length ns in
    let body = run_ops-acts ns (suc f) left hs [] 0 [] (omega (arith, fuel)) in
    let stops = run_ops-end left hs (record { index = 0; trace = ns }) (omega (arith, fuel)) in
    let over : lt_int8 1 (suc (length rest) % 256) ≡ false = ground (arith, low, high) in
    rw (body, stops, over, next_loop)
