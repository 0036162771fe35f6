-- ===== src/Docgen/Tags/RoundTrip.antt =====
-- Tags that Go code writes, read back by internal/docgen/parser.go.
use mathlib.Core.List.{append_assoc, reverse, reverse-append, reverse-cons, reverse-reverse}
use aqi.Prelude.{
  ℕ, Bool, true, false, not, ◌||◌, [], ◌∷◌, ◌++◌, ◌≡◌, refl, ap, ◌∙◌, Option, none, some,
  comparable_nat, ◌==◌, filter, if◌then◌else◌, arith,
}
use aqi.Prelude.Texts.{
  Text, codes, starts_with, trim, trim_left, is_char, is_space, is_empty, words, split, behind,
}
use aqi.Docgen.Tags.{
  before_comma, json_name, json_part, unquoted, extract_json_tag, scan_quoted, gorm_value,
  extract_gorm_tag,
}

-- A text in a Go string: quotes and backslashes get a backslash.
unfoldable pub escape : Text → Text
escape [] = []
escape (c ∷ t) =
    let rest = escape t in if c == b'\\' || c == b'"' then b'\\' ∷ c ∷ rest else c ∷ rest

abbrev pub any : (ℕ → Bool) → Text → Bool
any p [] = false
any p (c ∷ t) = p c || any p t

-- A tag with a JSON name and gorm settings.
abbrev json_field : Text → Text
json_field name = codes "json:\"" ++ (name ++ codes "\"")

abbrev gorm_field : Text → Text
gorm_field value = codes "gorm:\"" ++ (value ++ codes "\"")

unfoldable pub print_tag : Text → Text → Text
print_tag name gorm = b'`' ∷ ((json_field name ++ b' ' ∷ gorm_field (escape gorm)) ++ b'`' ∷ [])

scan_quoted-escape : (t rest : Text) → scan_quoted false (escape t ++ b'"' ∷ rest) ≡ some (escape t)
unfolding scan_quoted escape
scan_quoted-escape [] rest = refl
scan_quoted-escape (c ∷ t) rest = ground (arith, scan_quoted-escape t rest)

module _ (p : ℕ → Bool) where
  any-append : (s t : Text) → any p (s ++ t) ≡ (any p s || any p t)
  any-append [] t = refl
  any-append (c ∷ s) t = ground (arith, any-append s t)

  any-reverse : (t : Text) → any p (reverse t) ≡ any p t
  any-reverse [] = refl
  any-reverse (c ∷ t) =
      ap (any p) (reverse-cons c t)
      ∙ any-append (reverse t) (c ∷ [])
      ∙ ground (arith, any-reverse t)

  trim_left_none : (t : Text) → any p t ≡ false → trim_left p t ≡ t
  trim_left_none [] h = refl
  trim_left_none (c ∷ t) h = ground (arith, h)

  -- Trimming removes one character on each side that passes the test.
  trim_wrapped :
      (x y : ℕ) (t : Text)
      → p x ≡ true
      → p y ≡ true
      → any p t ≡ false
      → trim p (x ∷ (t ++ y ∷ [])) ≡ t
  trim_wrapped x y [] hx hy h = rw (hx, hy, trim_left, if◌then◌else◌) refl
  trim_wrapped x y (c ∷ t) hx hy h =
      let first : trim_left p (x ∷ ((c ∷ t) ++ y ∷ [])) ≡ (c ∷ t) ++ y ∷ [] =
        ground (arith, hx, h) in
      let second : trim_left p (y ∷ reverse (c ∷ t)) ≡ reverse (c ∷ t) =
        ground (arith, hy, trim_left_none (reverse (c ∷ t)) (any-reverse (c ∷ t) ∙ h)) in
      ap (λ s. reverse (trim_left p (reverse s))) first
      ∙ ap (λ s. reverse (trim_left p s)) (reverse-append (c ∷ t) (y ∷ []))
      ∙ ap reverse second
      ∙ reverse-reverse (c ∷ t)

-- A character of a JSON name that Go code writes in a tag.
abbrev pub is_plain : ℕ → Bool
is_plain c = not (is_space c || (c == b'"' || (c == b',' || (c == b':' || c == b'`'))))

-- Some character is not plain.
abbrev pub is_odd : Text → Bool
is_odd = any (λ c. not (is_plain c))

any-plain :
    (p : ℕ → Bool)
    → ((c : ℕ) → is_plain c ≡ true → p c ≡ false)
    → (t : Text) → is_odd t ≡ false
    → any p t ≡ false
any-plain p h [] k = refl
any-plain p h (c ∷ t) k =
    let rest = any-plain p h t (ground (arith, k)) in ground (arith, h c (ground (arith, k)), rest)

before_comma-plain : (t : Text) → any (is_char b',') t ≡ false → before_comma t ≡ t
before_comma-plain [] h = refl
before_comma-plain (c ∷ t) h = ground (arith, h, before_comma-plain t)

json_name-plain : (t : Text) → any (is_char b',') t ≡ false → json_name t ≡ t
json_name-plain [] h = refl
json_name-plain (c ∷ t) h = ground (arith, h, before_comma-plain (c ∷ t) h)

split-word :
    (t rest : Text)
    → any is_space t ≡ false
    → split is_space (t ++ b' ' ∷ rest) ≡ t ∷ split is_space rest
split-word [] rest h = refl
split-word (c ∷ t) rest h = ground (arith, h, split-word t rest)

-- Behind a name that has no colon, `gorm:` does not start inside the name.
no_gorm :
    (c : ℕ) (t rest : Text)
    → is_odd (c ∷ t) ≡ false
    → starts_with (codes "gorm:") (c ∷ (t ++ b'"' ∷ b' ' ∷ rest)) ≡ false
no_gorm c [] rest h = ground arith
no_gorm c (d ∷ []) rest h = ground arith
no_gorm c (d ∷ e ∷ []) rest h = ground arith
no_gorm c (d ∷ e ∷ f ∷ []) rest h = ground arith
no_gorm c (d ∷ e ∷ f ∷ g ∷ t) rest h = ground (arith, h)

behind-name :
    (t rest : Text)
    → is_odd t ≡ false
    → behind (codes "gorm:") (t ++ b'"' ∷ b' ' ∷ (codes "gorm:" ++ rest)) ≡ some rest
behind-name [] rest h = refl
behind-name (c ∷ t) rest h =
    rw (no_gorm c t (codes "gorm:" ++ rest) h, if◌then◌else◌)
      (behind-name t rest (ground (arith, h)))

any-escape : (t : Text) → any (is_char b'`') (escape t) ≡ any (is_char b'`') t
unfolding escape
any-escape [] = refl
any-escape (c ∷ t) = ground (arith, any-escape t)

-- Nothing between the quotation marks of a tag is one of them.
quoted_inside :
    (name value : Text)
    → is_odd name ≡ false
    → any (is_char b'`') value ≡ false
    → any (is_char b'`') (json_field name ++ b' ' ∷ gorm_field value) ≡ false
quoted_inside name value h k =
    any-append (is_char b'`') (json_field name) (b' ' ∷ gorm_field value)
    ∙ rw
        (
          any-append (is_char b'`') name (codes "\""),
          any-append (is_char b'`') value (codes "\""),
          k,
          any-plain (is_char b'`') (λ c g. ground (arith, g)) name h,
        )
        refl

unquoted-print_tag :
    (name gorm : Text)
    → is_odd name ≡ false
    → any (is_char b'`') gorm ≡ false
    → unquoted (print_tag name gorm) ≡ json_field name ++ b' ' ∷ gorm_field (escape gorm)
unfolding print_tag
unquoted-print_tag name gorm h k =
    trim_wrapped (is_char b'`') b'`' b'`' (json_field name ++ b' ' ∷ gorm_field (escape gorm)) refl
      refl (quoted_inside name (escape gorm) h (any-escape gorm ∙ k))

words-print_tag :
    (name rest : Text)
    → is_odd name ≡ false
    → words (json_field name ++ b' ' ∷ rest) ≡ json_field name ∷ words rest
words-print_tag name rest h = ap (filter (λ w. not (is_empty w))) (
    split-word (json_field name) rest (
      rw
        (
          any-append is_space name (codes "\""),
          any-plain is_space (λ c g. ground (arith, g)) name h,
        )
        refl))

json_field-append :
    (name rest : Text)
    → json_field name ++ b' ' ∷ rest ≡ codes "json:\"" ++ (name ++ b'"' ∷ b' ' ∷ rest)
json_field-append name rest =
    ap (λ t. codes "json:\"" ++ t) (append_assoc name (codes "\"") (b' ' ∷ rest))

abbrev value_or_empty : Option Text → Text
value_or_empty none = []
value_or_empty (some t) = t

-- What `extractJSONTag` and `extractGormTag` read from a tag that holds a JSON name and gorm
-- settings: the name, where it has no space, quote, comma, colon or backquote, and the settings as
-- they are escaped in the tag, where they have no backquote. Neither value changes the other.
pub extract-print_tag :
    (name gorm : Text)
    → is_odd name ≡ false
    → any (is_char b'`') gorm ≡ false
    → (extract_json_tag (some (print_tag name gorm)) ≡ name)
      × (extract_gorm_tag (some (print_tag name gorm)) ≡ escape gorm)
unfolding extract_json_tag extract_gorm_tag json_part
extract-print_tag name gorm h k =
    let inside = unquoted-print_tag name gorm h k in
    let commas = any-plain (is_char b',') (λ c g. ground (arith, g)) name h in
    let quotes = any-plain (is_char b'"') (λ c g. ground (arith, g)) name h in
    (
      ap (λ t. json_part (words t)) inside
          ∙ ap json_part (words-print_tag name (gorm_field (escape gorm)) h)
          ∙ ap json_name (trim_wrapped (is_char b'"') b'"' b'"' name refl refl quotes)
          ∙ json_name-plain name commas,
      ap (λ t. gorm_value (behind (codes "gorm:") t)) inside
          ∙ ap (λ t. gorm_value (behind (codes "gorm:") t))
              (json_field-append name (gorm_field (escape gorm)))
          ∙ ap gorm_value (behind-name name (b'"' ∷ (escape gorm ++ codes "\"")) h)
          ∙ ap value_or_empty (scan_quoted-escape gorm []),
    )
