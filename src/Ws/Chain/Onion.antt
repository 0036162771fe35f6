-- ===== src/Ws/Chain/Onion.antt =====
-- `Next` and `Abort` of ws/context.go against the recursive reading of a chain of middleware.
use aqi.Prelude.{ℕ, ◌≤◌, ◌≡◌, List, ◌++◌, length, map}
use aqi.Ws.Chain.{Handler, Outcome, done}
use aqi.Ws.Chain.Kinds.{Kind, handler}

-- The loop has ended with this trace, and with an index between the bounds.
abbrev Ends : Outcome → List ℕ → ℕ → ℕ → Type 0
Ends o t low high = (i : ℕ) × (o ≡ done (record { index = i; trace = t })) × (low ≤ i) × (i ≤ high)

-- Handlers that are the last ones of a chain, at an index.
abbrev IsTail : List Kind → List Handler → ℕ → Type 0
IsTail ks hs i = (pre : List Handler) × (hs ≡ pre ++ map handler ks) × (i ≡ length pre)
