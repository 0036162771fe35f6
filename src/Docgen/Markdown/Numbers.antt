-- ===== src/Docgen/Markdown/Numbers.antt =====
-- Numbers that internal/docgen writes and reads.
use Prim.Native.Nat.{◌/◌, ◌%◌}
use aqi.Prelude.{
  ℕ, zero, suc, ◌+◌, ◌*◌, ◌-◌, ◌≤◌, true, [], ◌∷◌, ◌≡◌, refl, ap, ◌∙◌, if◌then◌else◌, Bool-cases,
  inl, inr, ltb, leb, arith,
}
use aqi.Prelude.Texts.{Text, digits, decimal}
use aqi.Docgen.Syntax.{int_lit}
use aqi.Docgen.Returns.{read_digits, extract_int_value}

-- One digit in front of a text shifts what was read by ten.
read_digit :
    (k n : ℕ) (t : Text) → suc k ≤ 10 → read_digits n ((b'0' + k) ∷ t) ≡ read_digits (n * 10 + k) t
read_digit k n t h =
    let above : leb b'0' (b'0' + k) ≡ true = ground (arith) in
    let below : leb (b'0' + k) b'9' ≡ true = ground (arith, h) in
    let value : b'0' + k - b'0' ≡ k = omega arith in rw (above, below, value, if◌then◌else◌) refl

read_digits-digits :
    (fuel n : ℕ) (t : Text) → suc n ≤ fuel → read_digits 0 (digits fuel n t) ≡ read_digits n t
unfolding digits
read_digits-digits zero n t h = absurd (omega (arith, h))
read_digits-digits (suc fuel) n t h = elim (Bool-cases (ltb n 10)) [
  | inl b ↦
      let small : suc n ≤ 10 = ground (arith, b) in
      let same : 0 * 10 + n ≡ n = omega arith in
      rw (b, if◌then◌else◌) (read_digit n 0 t small ∙ ap (λ m. read_digits m t) same)
  | inr b ↦
      let large : 10 ≤ n = ground (arith, b) in
      let enough : suc (n / 10) ≤ fuel = omega (arith, h, large) in
      let last : suc (n % 10) ≤ 10 = omega arith in
      let same : n / 10 * 10 + n % 10 ≡ n = omega arith in
      rw (b, if◌then◌else◌)
        (read_digits-digits fuel (n / 10) ((b'0' + n % 10) ∷ t) enough
          ∙ read_digit (n % 10) (n / 10) t last
          ∙ ap (λ m. read_digits m t) same)
]

-- A number that `formatErrorCodes` prints is the one that `extractIntLiteral` reads back, where it is
-- an int. So the fuel of `digits` is enough.
pub extract-decimal :
    (n : ℕ) → suc n ≤ 9223372036854775808 → extract_int_value (int_lit (decimal n)) ≡ n
unfolding extract_int_value
extract-decimal n h =
    let read : read_digits 0 (decimal n) ≡ n = read_digits-digits (suc n) n [] (omega arith) in
    ap (λ m. if ltb m 9223372036854775808 then m else 0) read
    ∙ (let small : ltb n 9223372036854775808 ≡ true = ground (arith, h) in
        rw (small, if◌then◌else◌) refl)
