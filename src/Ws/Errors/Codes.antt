-- ===== src/Ws/Errors/Codes.antt =====
-- Codes that `NewError` (ws/data_error.go) gives.
use mathlib.Core.Option
use aqi.Prelude.{
  ℕ, ◌+◌, ◌*◌, ◌≤◌, ◌≡◌, ◌≢◌, refl, sym, ap, subst, ◌∙◌, true, false, String, List, [], ◌∷◌, Option,
  none, some, if◌then◌else◌, map, contains, HasNoRepeats, arith, ◌==◌,
}
use aqi.Prelude.Int.{ℤ, pos, negsuc, comparable_int, int_beq, int_beq_iff}
use aqi.Prelude.Dict.{Dict, get, put, get-put}
use aqi.Ws.Errors.{Error, full_code, in_range, new_error, new_errors, sys, base}

in_range-some :
    (low high : ℕ) (x : ℤ) (n : ℕ)
    → in_range low high x ≡ some n
    → (x ≡ pos n) × (low ≤ n) × (n ≤ high)
in_range-some low high (pos k) n e = ground (arith, e)
in_range-some low high (negsuc k) n e = absurd (ground (arith, e))

-- What a code registered for an application looks like.
full_code_view :
    (a c x : ℤ)
    → a ≢ sys
    → full_code a c ≡ some x
    → (m n : ℕ) × (a ≡ pos m) × (c ≡ pos n) × (200 ≤ m) × (n ≤ 999) × (x ≡ pos (m * 1000 + n))
unfolding full_code
full_code_view a c x h e =
    let other : int_beq a sys ≡ false = ground (arith, h, int_beq_iff a sys) in
    go (in_range 200 999 a) (in_range 0 999 c) refl refl (
      subst
        (λ b.
          (if b then some c else elim (in_range 200 999 a) [
            | none ↦ none
            | some m ↦ elim (in_range 0 999 c) [ none ↦ none | some n ↦ some (pos (m * base + n)) ]
          ])
          ≡ some x)
        other e)
  where
    go :
        (o p : Option ℕ)
        → in_range 200 999 a ≡ o
        → in_range 0 999 c ≡ p
        → (elim o [
          | none ↦ none
          | some m ↦ elim p [ none ↦ none | some n ↦ some (pos (m * base + n)) ]
        ])
          ≡ some x
        → (m n : ℕ) × (a ≡ pos m) × (c ≡ pos n) × (200 ≤ m) × (n ≤ 999) × (x ≡ pos (m * 1000 + n))
    go none p eo ep g = absurd (ground (arith, g))
    go (some m) none eo ep g = absurd (ground (arith, g))
    go (some m) (some n) eo ep g =
        let (ea, la, ha) = in_range-some 200 999 a m eo in
        let (ec, lc, hc) = in_range-some 0 999 c n ep in (m, n, ea, ec, la, hc, ground (arith, g))

-- The registered codes of two applications are equal only for one application and one code.
pub full_code_injective :
    (a b c d x : ℤ)
    → a ≢ sys
    → b ≢ sys
    → full_code a c ≡ some x
    → full_code b d ≡ some x
    → (a ≡ b) × (c ≡ d)
full_code_injective a b c d x ha hb e g =
    let (m, n, am, cn, low, high, xm) = full_code_view a c x ha e in
    let (k, l, bk, dl, low', high', xk) = full_code_view b d x hb g in
    let same : m * 1000 + n ≡ k * 1000 + l = ground (arith, xm, xk) in
    let apps : m ≡ k = omega (arith, same, high, high') in
    let codes : n ≡ l = omega (arith, same, high, high') in
    (am ∙ ap pos apps ∙ sym bk, cn ∙ ap pos codes ∙ sym dl)

-- No code of an application is one below 200000, which leaves those to the system.
pub full_code_above :
    (a c : ℤ) (x : ℤ) → a ≢ sys → full_code a c ≡ some x → (n : ℕ) × (x ≡ pos n) × (200000 ≤ n)
full_code_above a c x h e =
    let (m, n, am, cn, low, high, xm) = full_code_view a c x h e in
    (m * 1000 + n, xm, omega (arith, low))

new_error_view :
    (app code : ℤ) (msg : String) (codes last : Dict ℤ String) (e : Error)
    → new_error app code msg codes ≡ some (e, last)
    → (get codes e.code ≡ none) × (last ≡ put codes e.code msg)
unfolding new_error
new_error_view app code msg codes last e h = go (full_code app code) h
  where
    fresh :
        (full : ℤ) (o : Option String)
        → get codes full ≡ o
        → ◌≡◌ {A = Option (Error × Dict ℤ String)}
            (elim o [
              | some old ↦ none
              | none ↦ some (record { code = full; msg = msg }, put codes full msg)
            ])
            (some (e, last))
        → (get codes e.code ≡ none) × (last ≡ put codes e.code msg)
    fresh full (some old) g k = absurd (ground (arith, k))
    fresh full none g k =
        let both : (e, last) ≡ (record { code = full; msg = msg }, put codes full msg) =
          sym (ap (λ o. Option.get_or o (e, last)) k) in
        let codes_eq : e.code ≡ full = ap (λ p. p.0.code) both in
        (ap (get codes) codes_eq ∙ g, ap (λ p. p.1) both ∙ ap (λ c. put codes c msg) (sym codes_eq))

    go :
        (o : Option ℤ)
        → ◌≡◌ {A = Option (Error × Dict ℤ String)}
            (elim o [
              | none ↦ none
              | some full ↦ elim (get codes full) [
                | some old ↦ none
                | none ↦ some (record { code = full; msg = msg }, put codes full msg)
              ]
            ])
            (some (e, last))
        → (get codes e.code ≡ none) × (last ≡ put codes e.code msg)
    go none k = absurd (ground (arith, k))
    go (some full) k = fresh full (get codes full) refl k

abbrev made_errors : Option (List Error × Dict ℤ String) → List Error
made_errors none = []
made_errors (some (es, codes)) = es

abbrev last_codes : Option (List Error × Dict ℤ String) → Dict ℤ String
last_codes none = []
last_codes (some (es, codes)) = codes

-- A call, and the calls after it.
new_errors_view :
    (app code : ℤ) (msg : String) (calls : List (ℤ × (ℤ × String))) (codes last : Dict ℤ String)
    (es : List Error)
    → new_errors ((app, (code, msg)) ∷ calls) codes ≡ some (es, last)
    → (e : Error) × (rest : List Error) × (es ≡ e ∷ rest)
      × (get codes e.code ≡ none)
      × (new_errors calls (put codes e.code msg) ≡ some (rest, last))
unfolding new_errors
new_errors_view app code msg calls codes last es h = go (new_error app code msg codes) refl h
  where
    after :
        (e : Error) (codes' : Dict ℤ String) (o : Option (List Error × Dict ℤ String))
        → new_errors calls codes' ≡ o
        → ◌≡◌ {A = Option (List Error × Dict ℤ String)}
            (elim o [ none ↦ none | some (rest, end) ↦ some (e ∷ rest, end) ])
            (some (es, last))
        → (rest : List Error) × (es ≡ e ∷ rest) × (new_errors calls codes' ≡ some (rest, last))
    after e codes' none g k = absurd (ground (arith, k))
    after e codes' (some (rest, end)) g k =
        (rest, sym (ap made_errors k), g ∙ ap (λ c. some (rest, c)) (ap last_codes k))

    go :
        (o : Option (Error × Dict ℤ String))
        → new_error app code msg codes ≡ o
        → ◌≡◌ {A = Option (List Error × Dict ℤ String)}
            (elim o [
              | none ↦ none
              | some (e, codes') ↦ elim (new_errors calls codes') [
                | none ↦ none
                | some (rest, end) ↦ some (e ∷ rest, end)
              ]
            ])
            (some (es, last))
        → (e : Error) × (rest : List Error) × (es ≡ e ∷ rest)
          × (get codes e.code ≡ none)
          × (new_errors calls (put codes e.code msg) ≡ some (rest, last))
    go none g k = absurd (ground (arith, k))
    go (some (e, codes')) g k =
        let (free, stored) = new_error_view app code msg codes codes' e g in
        let (rest, made, more) = after e codes' (new_errors calls codes') refl k in
        (e, rest, made, free, ap (new_errors calls) (sym stored) ∙ more)

-- No error of a run has a code that was registered before the run.
new_errors-fresh :
    (calls : List (ℤ × (ℤ × String))) (codes last : Dict ℤ String) (es : List Error) (x : ℤ)
    (v : String)
    → new_errors calls codes ≡ some (es, last)
    → get codes x ≡ some v
    → contains x (map (λ e. e.code) es) ≡ false
unfolding new_errors
new_errors-fresh [] codes last es x v h g =
    let none_made : es ≡ [] = sym (ap made_errors h) in
    ap (λ l. contains x (map (λ e. e.code) l)) none_made
new_errors-fresh ((app, (code, msg)) ∷ calls) codes last es x v h g =
    let (e, rest, made, free, more) = new_errors_view app code msg calls codes last es h in
    let apart : e.code == x ≡ false = ground (arith, int_beq_iff e.code x, free, g) in
    let kept : get (put codes e.code msg) x ≡ some v =
      get-put codes e.code x msg ∙ rw (apart, if◌then◌else◌) g in
    let tail = new_errors-fresh calls (put codes e.code msg) last rest x v more kept in
    let other : x == e.code ≡ false =
      ground (arith, apart, int_beq_iff x e.code, int_beq_iff e.code x) in
    ap (λ l. contains x (map (λ e. e.code) l)) made ∙ rw (other, tail) refl

-- The errors that a run of calls of `NewError` makes have codes that all differ.
pub new_errors-HasNoRepeats :
    (calls : List (ℤ × (ℤ × String))) (codes last : Dict ℤ String) (es : List Error)
    → new_errors calls codes ≡ some (es, last)
    → HasNoRepeats (map (λ e. e.code) es)
unfolding new_errors
new_errors-HasNoRepeats [] codes last es h =
    let none_made : [] ≡ es = ap made_errors h in
    subst (λ l. HasNoRepeats (map (λ e. e.code) l)) none_made tt
new_errors-HasNoRepeats ((app, (code, msg)) ∷ calls) codes last es h =
    let (e, rest, made, free, more) = new_errors_view app code msg calls codes last es h in
    let own : e.code == e.code ≡ true = ground (arith, int_beq_iff e.code e.code) in
    let kept : get (put codes e.code msg) e.code ≡ some msg =
      get-put codes e.code e.code msg ∙ rw (own, if◌then◌else◌) refl in
    subst (λ l. HasNoRepeats (map (λ e. e.code) l)) (sym made)
      (
        new_errors-fresh calls (put codes e.code msg) last rest e.code msg more kept,
        new_errors-HasNoRepeats calls (put codes e.code msg) last rest more,
      )
