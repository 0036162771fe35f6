-- ===== src/Ws/Dispatcher/Routed.antt =====
-- A request for a route: `Add` of ws/router.go, `Dispatcher` and the chain together.
use mathlib.Core.Option
use aqi.Prelude.{comparable_string}
