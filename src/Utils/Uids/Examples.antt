-- ===== src/Utils/Uids/Examples.antt =====
-- Sequence numbers on one day (utils/uidgen/simple_uid.go).
use aqi.Prelude.{ℕ, [], ◌∷◌, ◌≡◌, refl, arith}
use aqi.Prelude.Texts.{codes, digits}
use aqi.Utils.Uids.{gen_sid, Clock, base_of, gen_seq, gen_all}
use aqi.Utils.Uids.Sequence.{IsAscending, gen_all-IsAscending}

abbrev at : ℕ → ℕ → Clock
at second tick = record { year = 2025; year_day = 1; second = second; tick = tick }

in_one_tick : gen_all 0 (at 1 5 ∷ at 1 5 ∷ at 0 9 ∷ []) ≡ 100005 ∷ 100006 ∷ 100007 ∷ []
unfolding gen_all gen_seq base_of
in_one_tick = refl

gen_all-IsAscending_example : IsAscending 0 (gen_all 0 (at 1 5 ∷ at 1 5 ∷ []))
gen_all-IsAscending_example =
    gen_all-IsAscending (at 1 5 ∷ at 1 5 ∷ []) 0
      ((omega arith, omega arith), ((omega arith, omega arith), tt)) (omega arith) (omega arith)

sixteen_digits : gen_sid (at 1 5) 100005 ≡ codes "1005220000100005"
unfolding gen_sid digits
sixteen_digits = refl
