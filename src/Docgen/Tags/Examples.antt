-- ===== src/Docgen/Tags/Examples.antt =====
-- Tags of the kind that the program's own structs have (internal/docgen/parser.go).
use aqi.Prelude.{true, [], ◌∷◌, Option, some, ◌≡◌, refl}
use aqi.Prelude.Texts.{Text, codes}
use aqi.Docgen.Tags.{
  extract_json_tag, json_part, extract_gorm_tag, scan_quoted, should_skip_gorm_field, has_omitempty,
  extract_comment,
}
use aqi.Docgen.Tags.RoundTrip.{extract-print_tag, print_tag, escape}

abbrev id_tag : Option Text
id_tag = some (codes "`json:\"id,omitempty\" gorm:\"primaryKey;autoIncrement:true\"`")

tag_names : extract_json_tag id_tag ≡ codes "id"
unfolding extract_json_tag json_part
tag_names = refl

tag_is_skipped : should_skip_gorm_field id_tag ≡ true
unfolding should_skip_gorm_field extract_gorm_tag scan_quoted
tag_is_skipped = refl

tag_is_optional : has_omitempty id_tag ≡ true
unfolding has_omitempty
tag_is_optional = refl

-- A tag without a name gives its options as the name.
comma_stays : extract_json_tag (some (codes "`json:\",omitempty\"`")) ≡ codes ",omitempty"
unfolding extract_json_tag json_part
comma_stays = refl

comment_joins :
    extract_comment (codes "// the id" ∷ codes "//" ∷ codes "//  of a user " ∷ [])
    ≡ codes "the id of a user"
unfolding extract_comment
comment_joins = refl

extract-print_tag_example :
    (extract_json_tag (some (print_tag (codes "user_id") (codes "comment:\"x\"")))
      ≡ codes "user_id")
    × (extract_gorm_tag (some (print_tag (codes "user_id") (codes "comment:\"x\"")))
        ≡ escape (codes "comment:\"x\""))
extract-print_tag_example = extract-print_tag (codes "user_id") (codes "comment:\"x\"") refl refl
