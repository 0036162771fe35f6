-- ===== src/Ws/Chain/Kinds.antt =====
-- The usual handlers of a chain, and single steps of `Next` of ws/context.go on them.
use mathlib.Core.List.{append_assoc, append-nil}
use aqi.Prelude.{
  ℕ, zero, suc, ◌+◌, ◌%◌, ◌≤◌, ◌<◌, ◌≡◌, refl, ap, ◌∙◌, true, false, List, [], ◌∷◌, ◌++◌, some,
  length, get_elem?, ltb, arith,
}
use aqi.Ws.Chain.{
  Op, act, next, abort, Handler, Context, done, ◌>>=◌, bump, lt_int8, handler_at, run_ops,
  next_loop,
}

-- The usual kinds of handlers: effects alone; effects round a call of `Next`; effects and `Abort`.
pub data Kind : Type 0 where
  plain : List ℕ → Kind
  wrap : List ℕ → List ℕ → Kind
  stop : List ℕ → Kind

abbrev pub acts : List ℕ → List Op → List Op
acts [] ops = ops
acts (n ∷ ns) ops = act n ∷ acts ns ops

abbrev pub handler : Kind → Handler
handler (plain b) = acts b []
handler (wrap b a) = acts b (next ∷ acts a [])
handler (stop b) = acts b (abort ∷ [])

-- What the chain does: each handler before the ones behind it, a wrapper also after them, and
-- nothing behind a handler that aborts.
abbrev pub layers : List Kind → List ℕ
layers [] = []
layers (plain b ∷ ks) = b ++ layers ks
layers (wrap b a ∷ ks) = b ++ (layers ks ++ a)
layers (stop b ∷ ks) = b

-- Fuel that is enough for the chain behind an index.
abbrev pub cost : List Kind → ℕ
cost [] = 1
cost (plain b ∷ ks) = length b + 3 + cost ks
cost (wrap b a ∷ ks) = length b + length a + 6 + cost ks
cost (stop b ∷ ks) = length b + 5

-- Effects in front of the rest of a handler.
pub run_ops-acts :
    (ns : List ℕ) (f g : ℕ) (hs : List Handler) (ops : List Op) (i : ℕ) (t : List ℕ)
    → f ≡ length ns + g
    → run_ops f hs (acts ns ops) (record { index = i; trace = t })
      ≡ run_ops g hs ops (record { index = i; trace = t ++ ns })
unfolding run_ops
run_ops-acts [] f g hs ops i t e = let fg : f ≡ g = omega (arith, e) in rw (fg, append-nil)
run_ops-acts (n ∷ ns) zero g hs ops i t e = absurd (omega (arith, e))
run_ops-acts (n ∷ ns) (suc f) g hs ops i t e =
    run_ops-acts ns f g hs ops i (t ++ n ∷ []) (omega (arith, e))
    ∙ ap (λ l. run_ops g hs ops (record { index = i; trace = l })) (append_assoc t (n ∷ []) ns)

pub run_ops-end : (f : ℕ) (hs : List Handler) (c : Context) → 1 ≤ f → run_ops f hs [] c ≡ done c
unfolding run_ops
run_ops-end zero hs c h = absurd (omega (arith, h))
run_ops-end (suc f) hs c h = refl

pub get_elem?-append_at :
    (pre : List Handler) (x : Handler) (rest : List Handler)
    → get_elem? (pre ++ x ∷ rest) (length pre) ≡ some x
get_elem?-append_at [] x rest = refl
get_elem?-append_at (y ∷ pre) x rest = get_elem?-append_at pre x rest

-- A test of the loop that fails.
pub next_loop-end :
    (f : ℕ) (hs : List Handler) (i : ℕ) (t : List ℕ)
    → 1 ≤ f
    → length hs ≤ 63
    → length hs ≤ i
    → i < 128
    → next_loop f hs (record { index = i; trace = t }) ≡ done (record { index = i; trace = t })
unfolding run_ops
next_loop-end zero hs i t h short low high = absurd (omega (arith, h))
next_loop-end (suc f) hs i t h short low high =
    let over : lt_int8 i (length hs % 256) ≡ false = ground (arith, short, low, high) in
    rw (over, next_loop)

-- A test of the loop that passes.
pub next_loop-enter :
    (f : ℕ) (hs : List Handler) (i : ℕ) (x : Handler) (t : List ℕ)
    → length hs ≤ 63
    → i < length hs
    → get_elem? hs i ≡ some x
    → next_loop (suc f) hs (record { index = i; trace = t })
      ≡ (run_ops f hs x (record { index = i; trace = t }) >>= λ c'. next_loop f hs (bump c'))
unfolding run_ops
next_loop-enter f hs i x t short low found =
    let below : lt_int8 i (length hs % 256) ≡ true = ground (arith, short, low) in
    let at : handler_at hs i ≡ some x =
      (let small : ltb i 128 ≡ true = ground (arith, short, low) in rw (small, handler_at) found) in
    rw (below, at, next_loop)
