-- ===== src/Ws/Chain/Examples.antt =====
-- Chains at work.
use aqi.Prelude.{◌≡◌, refl, ℕ, zero, suc, List, [], ◌∷◌, arith}
use aqi.Ws.Chain.{act, abort, Handler, done, run_chain}
use aqi.Ws.Chain.Limits.{run_chain-overflow}
use aqi.Ws.Chain.Kinds.{Kind, plain, stop}

abbrev recovered : List Kind
recovered = plain (2 ∷ []) ∷ stop (3 ∷ []) ∷ plain (4 ∷ []) ∷ []

abbrev repeat : ℕ → Handler → List Handler
repeat zero h = []
repeat (suc n) h = h ∷ repeat n h

run_chain-overflow_example :
    run_chain 4 ((act 1 ∷ act 2 ∷ []) ∷ repeat 130 (act 7 ∷ []))
    ≡ done (record { index = 1; trace = 1 ∷ 2 ∷ [] })
run_chain-overflow_example =
    run_chain-overflow (1 ∷ 2 ∷ []) (repeat 130 (act 7 ∷ [])) 4 (omega arith) (omega arith)
      (omega arith)

-- A chain whose first handler aborts, and that holds 66 handlers in all, still runs the last two.
abort_limit :
    run_chain 100 ((abort ∷ []) ∷ repeat 65 (act 7 ∷ []))
    ≡ done (record { index = 66; trace = 7 ∷ 7 ∷ [] })
unfolding run_chain
abort_limit = refl
