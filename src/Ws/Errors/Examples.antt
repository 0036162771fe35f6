-- ===== src/Ws/Errors/Examples.antt =====
-- Error codes at work.
use aqi.Prelude.{ℕ, ◌≡◌, ◌≤◌, refl, arith, List, [], ◌∷◌, map, HasNoRepeats}
use aqi.Prelude.Int.{pos, comparable_int}
use aqi.Prelude.Dict.{get, put}
use aqi.Ws.Errors.{Error, full_code, new_error, new_errors}
use aqi.Ws.Errors.Codes.{full_code_injective, full_code_above, new_errors-HasNoRepeats}

full_code_injective_example : (pos 201 ≡ pos 201) × (pos 7 ≡ pos 7)
unfolding full_code
full_code_injective_example =
    full_code_injective (pos 201) (pos 201) (pos 7) (pos 7) (pos 201007) (λ e. ground (arith, e))
      (λ e. ground (arith, e)) refl refl

full_code_above_example : (n : ℕ) × (pos 201007 ≡ pos n) × (200000 ≤ n)
unfolding full_code
full_code_above_example =
    full_code_above (pos 201) (pos 7) (pos 201007) (λ e. ground (arith, e)) refl

abbrev made : List Error
made =
    record { code = pos 1100; msg = "maintenance" }
    ∷ record { code = pos 201100; msg = "sold out" }
    ∷ []

new_errors-HasNoRepeats_example : HasNoRepeats (map (λ e. e.code) made)
unfolding new_errors new_error full_code get put
new_errors-HasNoRepeats_example =
    new_errors-HasNoRepeats
      ((pos 0, (pos 1100, "maintenance")) ∷ (pos 201, (pos 100, "sold out")) ∷ []) []
      ((pos 1100, "maintenance") ∷ (pos 201100, "sold out") ∷ []) made refl
