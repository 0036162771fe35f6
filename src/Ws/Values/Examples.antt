-- ===== src/Ws/Values/Examples.antt =====
-- Values that are set and read (ws/context_value.go, ws/data_h.go).
use aqi.Prelude.{none, true, ◌≡◌, refl}
use aqi.Prelude.Int.{pos}
use aqi.Prelude.Dict.{get, put}
use aqi.Ws.Values.{int_any, as_int64, h_get, h_set}

read_back : h_get (h_set none "a" (int_any (pos 3))) "a" ≡ (int_any (pos 3), true)
unfolding h_get h_set get put
read_back = refl

-- An int is no int64.
other_width : as_int64 (int_any (pos 3)) ≡ pos 0
unfolding as_int64
other_width = refl
