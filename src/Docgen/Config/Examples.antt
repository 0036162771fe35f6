-- ===== src/Docgen/Config/Examples.antt =====
-- Runs of the configuration of internal/docgen/parser.go.
use aqi.Prelude.{List, [], ◌∷◌, some, ◌≡◌, refl}
use aqi.Prelude.Dict.{Dict, get}
use aqi.Prelude.Texts.{Text, codes, comparable_text}
use aqi.Docgen.Config.{add_groups, DocumentInfo, merge_documents}
use aqi.Docgen.Config.Groups.{add_groups-get}
use aqi.Docgen.Config.Documents.{merge_documents-filter, merge_documents-twice}

abbrev groups : Dict Text Text
groups = (codes "user", codes "Users") ∷ []

add_groups-get_example :
    get (add_groups (codes "user" ∷ codes "order" ∷ []) groups).1 (codes "order")
    ≡ some (codes "order")
unfolding get
add_groups-get_example = add_groups-get (codes "user" ∷ codes "order" ∷ []) groups (codes "order")

abbrev document : Text → Text → DocumentInfo
document name file = record { name = name; label = name; file = file }

abbrev written : List DocumentInfo
written =
    document (codes "Mine") (codes "user.md")
    ∷ document (codes "old") (codes "old.json")
    ∷ document (codes "hand") (codes "hand.md")
    ∷ []

abbrev made : List DocumentInfo
made = document (codes "user") (codes "user.md") ∷ document (codes "order") (codes "order.md") ∷ []

-- The user's name stays, the document of the other format goes, the new one is added.
merge_documents-filter_example :
    merge_documents (codes "markdown") written made
    ≡ document (codes "Mine") (codes "user.md")
      ∷ document (codes "hand") (codes "hand.md")
      ∷ document (codes "order") (codes "order.md")
      ∷ []
merge_documents-filter_example = merge_documents-filter (codes "markdown") written made

merge_documents-twice_example :
    merge_documents (codes "markdown") (merge_documents (codes "markdown") written made) made
    ≡ merge_documents (codes "markdown") written made
merge_documents-twice_example =
    merge_documents-twice (codes "markdown") written made (refl, (refl, tt))
