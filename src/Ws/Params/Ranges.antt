-- ===== src/Ws/Params/Ranges.antt =====
-- Clamping in ws/context_params.go and mcp/context.go.
use aqi.Prelude.{◌≡◌, Bool, true, false, not, ◌&&◌, if◌then◌else◌, arith}
use aqi.Prelude.Int.{ℤ, pos, negsuc}
use aqi.Ws.Params.{lt_int, get_range_int, mcp_get_range_int}

-- `a ≤ b` on ints
abbrev pub le_int : ℤ → ℤ → Bool
le_int a b = not (lt_int b a)

lt_int-irreflexive : (a : ℤ) → lt_int a a ≡ false
lt_int-irreflexive (pos a) = ground arith
lt_int-irreflexive (negsuc a) = ground arith

module _ (d min max : ℤ) where
  -- Where the bounds are in order, the result lies between them, and is the value itself if that
  -- does.
  pub get_range_int-bounds :
      le_int min max ≡ true
      → (le_int min (get_range_int d min max) ≡ true)
        × (le_int (get_range_int d min max) max ≡ true)
        × ((if le_int min d && le_int d max then get_range_int d min max else d) ≡ d)
  unfolding get_range_int
  get_range_int-bounds h =
      let low = lt_int-irreflexive min in
      let high = lt_int-irreflexive max in
      (ground (arith, h, low), ground (arith, h, high), ground (arith, h))

  -- Where the bounds are in order, both packages clamp alike.
  pub get_range_int-agrees :
      le_int min max ≡ true → get_range_int d min max ≡ mcp_get_range_int d min max
  unfolding get_range_int mcp_get_range_int
  get_range_int-agrees h = ground (arith, h)

  -- Where they are not, and the value is below the minimum, ws/ returns the minimum and mcp/ the
  -- maximum.
  pub get_range_int-differs :
      lt_int max min ≡ true
      → lt_int d min ≡ true
      → (get_range_int d min max ≡ min) × (mcp_get_range_int d min max ≡ max)
  unfolding get_range_int mcp_get_range_int
  get_range_int-differs h k = (ground (arith, h, k), ground (arith, h, k))
