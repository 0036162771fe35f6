-- ===== src/Docgen/Tags.antt =====
-- The struct tags that internal/docgen/parser.go reads: `extractJSONTag`, `extractGormTag`,
-- `shouldSkipGormField`, and `extractComment`. A tag is `none` where a field has none.
pub mod RoundTrip
mod Examples
use aqi.Prelude.{
  ℕ, Bool, true, false, not, ◌&&◌, ◌||◌, List, [], ◌∷◌, ◌++◌, Option, none, some, comparable_nat,
  ◌==◌, length, drop, filter, map, if◌then◌else◌,
}
use aqi.Prelude.Texts.{
  Text, codes, starts_with, trim, trim_prefix, is_char, is_space, is_empty, words, holds, behind,
  join_texts,
}

-- `jsonValue[:idx]` where a comma stands at an index above 0
abbrev pub before_comma : Text → Text
before_comma [] = []
before_comma (c ∷ t) = let rest = before_comma t in if c == b',' then [] else c ∷ rest

abbrev pub json_name : Text → Text
json_name v = if starts_with (codes ",") v then v else before_comma v

-- The loop over the parts.
unfoldable pub json_part : List Text → Text
json_part [] = []
json_part (part ∷ parts) =
    let rest = json_part parts in
    if starts_with (codes "json:") part then json_name (trim (is_char b'"') (drop 5 part)) else rest

-- `strings.Trim(tag.Value, "`")`
abbrev pub unquoted : Text → Text
unquoted tag = trim (is_char b'`') tag

-- `extractJSONTag`
unfoldable pub extract_json_tag : Option Text → Text
unfolding json_part
extract_json_tag none = []
extract_json_tag (some tag) = json_part (words (unquoted tag))

-- The loop that looks for the closing quote; `none` where there is none.
unfoldable pub scan_quoted : Bool → Text → Option Text
scan_quoted escaped [] = none
scan_quoted true (c ∷ t) = elim (scan_quoted false t) [ none ↦ none | some r ↦ some (c ∷ r) ]
scan_quoted false (c ∷ t) =
    let next = scan_quoted true t in
    let rest = scan_quoted false t in
    if c == b'\\'
    then elim next [ none ↦ none | some r ↦ some (c ∷ r) ]
    else if c == b'"'
    then some []
    else elim rest [ none ↦ none | some r ↦ some (c ∷ r) ]

-- The value behind `gorm:`
abbrev pub gorm_value : Option Text → Text
gorm_value none = []
gorm_value (some []) = []
gorm_value (some (c ∷ t)) =
    if c == b'"' then elim (scan_quoted false t) [ none ↦ [] | some r ↦ r ] else []

-- `extractGormTag`
unfoldable pub extract_gorm_tag : Option Text → Text
unfolding scan_quoted
extract_gorm_tag none = []
extract_gorm_tag (some tag) = gorm_value (behind (codes "gorm:") (unquoted tag))

-- `shouldSkipGormField`
unfoldable pub should_skip_gorm_field : Option Text → Bool
should_skip_gorm_field tag =
    let gorm = extract_gorm_tag tag in
    if is_empty gorm
    then false
    else if holds (codes "primaryKey") gorm
        && (holds (codes "autoIncrement:true") gorm || holds (codes "autoIncrement") gorm)
    then true
    else holds (codes "default:CURRENT_TIMESTAMP") gorm
      || (holds (codes "default:current_timestamp") gorm
          || (holds (codes "default:now()") gorm
              || holds (codes "default:CURRENT_TIMESTAMP()") gorm))

-- The test of `isOptional` on the tag
unfoldable pub has_omitempty : Option Text → Bool
has_omitempty none = false
has_omitempty (some tag) = holds (codes "omitempty") (unquoted tag)

-- One line of `extractComment`
abbrev pub comment_text : Text → Text
comment_text line = trim is_space (trim_prefix (codes "//") (trim is_space line))

-- `extractComment`; a nil group has no lines.
unfoldable pub extract_comment : List Text → Text
extract_comment lines =
    join_texts (codes " ") (filter (λ t. not (is_empty t)) (map comment_text lines))
