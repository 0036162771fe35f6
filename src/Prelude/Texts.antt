-- ===== src/Prelude/Texts.antt =====
-- Texts that the program walks, as lists of code points, and what it uses of Go's package strings.
use Prim.Native.Char.{code}
use Prim.Native.String.{String}
use Prim.Native.Nat.{ℕ, zero, suc, ◌+◌, ◌-◌, ◌/◌, ◌%◌}
use mathlib.Core.Path.{◌≡◌, refl}
use mathlib.Core.Logic.{◌↔◌}
use mathlib.Core.Bool.{Bool, true, false, not, ◌&&◌, ◌||◌}
use mathlib.Core.Option.{Option, none, some}
use mathlib.Core.List.{List, [], ◌∷◌, ◌++◌, reverse}
use native.Mathlib.Omega.{arith}
use aqi.Prelude.Tests.{Comparable, comparable_nat, ◌==◌, if◌then◌else◌, ltb, leb}
use aqi.Prelude.Lists.{length, drop, filter}

abbrev pub Text : Type 0
Text = List ℕ

-- `String` has its own `[]` and `∷`.
abbrev pub codes : String → Text
codes String.[] = []
codes (String.◌∷◌ c s) = code c ∷ codes s

module _ {ℓ} {A : Type ℓ} ⦃e : Comparable A⦄ where
  abbrev pub list_beq : List A → List A → Bool
  list_beq [] [] = true
  list_beq [] (y ∷ ys) = false
  list_beq (x ∷ xs) [] = false
  list_beq (x ∷ xs) (y ∷ ys) = x == y && list_beq xs ys

  pub list_beq_iff : (xs ys : List A) → (list_beq xs ys ≡ true) ↔ (xs ≡ ys)
  list_beq_iff [] [] = (λ h. refl, λ h. refl)
  list_beq_iff [] (y ∷ ys) = (λ h. ground (arith, h), λ h. absurd (ground (arith, h)))
  list_beq_iff (x ∷ xs) [] = (λ h. ground (arith, h), λ h. absurd (ground (arith, h)))
  list_beq_iff (x ∷ xs) (y ∷ ys) = (
    λ h. ground (arith, h, e.equal_iff x y, list_beq_iff xs ys),
    λ h. ground (arith, h, e.equal_iff x y, list_beq_iff xs ys),
  )

instance abbrev pub comparable_text : Comparable Text
comparable_text = record { equal = list_beq; equal_iff = list_beq_iff }

-- `strings.HasPrefix(t, p)`
abbrev pub starts_with : Text → Text → Bool
starts_with [] t = true
starts_with (x ∷ p) [] = false
starts_with (x ∷ p) (y ∷ t) = x == y && starts_with p t

-- `strings.HasSuffix(t, s)`
abbrev pub ends_with : Text → Text → Bool
ends_with s t = leb (length s) (length t) && list_beq s (drop (length t - length s) t)

-- `strings.TrimPrefix(t, p)`
abbrev pub trim_prefix : Text → Text → Text
trim_prefix p t = if starts_with p t then drop (length p) t else t

-- `strings.Contains(t, s)`
abbrev pub holds : Text → Text → Bool
holds s [] = starts_with s []
holds s (x ∷ t) = starts_with s (x ∷ t) || holds s t

-- The text behind the first occurrence of `s`, which `strings.Index` finds.
abbrev pub behind : Text → Text → Option Text
behind s [] = if starts_with s [] then some [] else none
behind s (x ∷ t) =
    let rest = behind s t in if starts_with s (x ∷ t) then some (drop (length s) (x ∷ t)) else rest

abbrev pub trim_left : (ℕ → Bool) → Text → Text
trim_left p [] = []
trim_left p (x ∷ t) = let rest = trim_left p t in if p x then rest else x ∷ t

-- `strings.TrimFunc`; `strings.Trim` with one character, and `strings.TrimSpace` for ASCII
abbrev pub trim : (ℕ → Bool) → Text → Text
trim p t = reverse (trim_left p (reverse (trim_left p t)))

abbrev pub is_char : ℕ → ℕ → Bool
is_char c x = x == c

abbrev pub is_space : ℕ → Bool
is_space x = x == b' ' || leb 9 x && leb x 13

abbrev pub cons_first : ℕ → List Text → List Text
cons_first x [] = (x ∷ []) ∷ []
cons_first x (t ∷ ts) = (x ∷ t) ∷ ts

-- `strings.Split`, at the characters that pass a test
abbrev pub split : (ℕ → Bool) → Text → List Text
split p [] = [] ∷ []
split p (x ∷ t) = let rest = split p t in if p x then [] ∷ rest else cons_first x rest

abbrev pub is_empty {ℓ} : {A : Type ℓ} → List A → Bool
is_empty [] = true
is_empty (x ∷ t) = false

-- `strings.Fields`
abbrev pub words : Text → List Text
words t = filter (λ w. not (is_empty w)) (split is_space t)

-- `strings.Join`
abbrev pub join_texts : Text → List Text → Text
join_texts sep [] = []
join_texts sep (t ∷ []) = t
join_texts sep (t ∷ u ∷ ts) = t ++ (sep ++ join_texts sep (u ∷ ts))

-- `s < t` on texts
abbrev pub text_lt : Text → Text → Bool
text_lt s [] = false
text_lt [] (y ∷ t) = true
text_lt (x ∷ s) (y ∷ t) = ltb x y || x == y && text_lt s t

-- `%d` of a number that is not negative, in front of a text; fuel above the number is enough.
unfoldable pub digits : ℕ → ℕ → Text → Text
digits zero n t = t
digits (suc fuel) n t =
    let more = digits fuel (n / 10) ((b'0' + n % 10) ∷ t) in
    if ltb n 10 then (b'0' + n) ∷ t else more

abbrev pub decimal : ℕ → Text
decimal n = digits (suc n) n []

-- `%0wd` of a number that is not negative
abbrev pub zeros : ℕ → Text
zeros zero = []
zeros (suc n) = b'0' ∷ zeros n

abbrev pub padded : ℕ → ℕ → Text
padded width n = zeros (width - length (decimal n)) ++ decimal n
