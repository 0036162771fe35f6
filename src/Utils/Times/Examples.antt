-- ===== src/Utils/Times/Examples.antt =====
-- Relative times with the table of utils/t.go.
use aqi.Prelude.{◌+◌, ◌*◌, some, ◌≡◌, refl, arith}
use aqi.Prelude.Texts.{codes, digits}
use aqi.Utils.Times.{default_magnitudes, custom_rel_time, search, minute, second}
use aqi.Utils.Times.Chosen.{IsAscending, custom_rel_time-first_above}

table_ascends : IsAscending default_magnitudes
table_ascends = (
  omega arith,
  (
    omega arith,
    (
      omega arith,
      (
        omega arith,
        (
          omega arith,
          (
            omega arith,
            (
              omega arith,
              (
                omega arith,
                (
                  omega arith,
                  (
                    omega arith,
                    (
                      omega arith,
                      (omega arith, (omega arith, (omega arith, (omega arith, (omega arith, tt))))),
                    ),
                  ),
                ),
              ),
            ),
          ),
        ),
      ),
    ),
  ),
)

custom_rel_time-first_above_example :
    custom_rel_time 0 (5 * minute + 3 * second) (codes "前") (codes "刚刚") default_magnitudes
    ≡ some (codes "5 分钟 前")
unfolding digits
custom_rel_time-first_above_example =
    custom_rel_time-first_above 0 (5 * minute + 3 * second) (codes "前") (codes "刚刚")
      default_magnitudes table_ascends

by_halving :
    custom_rel_time 0 (5 * minute + 3 * second) (codes "前") (codes "刚刚") default_magnitudes
    ≡ some (codes "5 分钟 前")
unfolding custom_rel_time search digits
by_halving = refl
