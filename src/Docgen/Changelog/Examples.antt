-- ===== src/Docgen/Changelog/Examples.antt =====
-- Runs of the changelog of internal/docgen/generator.go.
use aqi.Prelude.{
  ◌≤◌, false, not, ◌&&◌, ◌||◌, List, [], ◌∷◌, none, some, ◌≡◌, refl, contains, length,
}
use aqi.Prelude.Texts.{Text, codes, comparable_text, text_lt}
use aqi.Prelude.Sorting.{IsSorted, sort_texts, sort_by}
use aqi.Docgen.Doc.{ActionDoc, RouterFile}
use aqi.Docgen.Changelog.{
  Snapshot, Entry, to_set, minus, compare_actions, replace_snapshot, store_snapshot,
  generate_changelog,
}
use aqi.Docgen.Changelog.Differences.{compare_actions_applies, previous}
use aqi.Docgen.Changelog.Snapshots.{store_snapshot-length, generate_changelog-twice}

abbrev snapshot : Text → List Text → Snapshot
snapshot version actions = record { version = version; timestamp = codes "t"; actions = actions }

abbrev one : Snapshot
one = snapshot (codes "v1") (codes "a.x" ∷ codes "b.x" ∷ [])

abbrev now_named : List Text
now_named = codes "c.x" ∷ codes "a.x" ∷ []

compare_actions_applies_example :
    let (added, removed) = compare_actions now_named (some one) in
    ((a : Text)
      → contains a added ≡ (contains a now_named && not (contains a (previous (some one)))))
    × ((a : Text)
        → contains a removed ≡ (contains a (previous (some one)) && not (contains a now_named)))
    × ((a : Text)
        → ((contains a (previous (some one)) && not (contains a removed)) || contains a added)
          ≡ contains a now_named)
    × IsSorted text_lt added
    × IsSorted text_lt removed
compare_actions_applies_example = compare_actions_applies now_named (some one)

store_snapshot-length_example : length (store_snapshot (snapshot (codes "v2") []) (one ∷ [])) ≤ 50
store_snapshot-length_example = store_snapshot-length (snapshot (codes "v2") []) (one ∷ [])

abbrev action : Text → ActionDoc
action name = record {
  name = name;
  description = [];
  router_file = [];
  middleware_chain = [];
  middleware_group = [];
  params = [];
  returns = record { success_type = []; error_codes = []; has_data = false };
}

abbrev files : List RouterFile
files =
    record {
      file_name = codes "user";
      func_name = codes "User";
      actions = action (codes "c.x") ∷ action (codes "a.x") ∷ [];
    }
    ∷ []

-- The changelog of version `v2` and what is written with it.
abbrev entry : Entry
entry = record {
  version = codes "v2";
  timestamp = codes "t";
  added = codes "c.x" ∷ [];
  removed = codes "b.x" ∷ [];
}

abbrev stored : List Snapshot
stored = one ∷ snapshot (codes "v2") (codes "a.x" ∷ codes "c.x" ∷ []) ∷ []

first_run : generate_changelog (codes "v2") (codes "t") files (one ∷ []) ≡ some (entry, stored)
unfolding generate_changelog compare_actions store_snapshot replace_snapshot minus to_set sort_texts
    sort_by
first_run = refl

generate_changelog-twice_example : generate_changelog (codes "v2") (codes "u") files stored ≡ none
generate_changelog-twice_example =
    generate_changelog-twice (codes "v2") (codes "t") (codes "u") files (one ∷ []) stored entry
      (refl, tt) first_run

-- An old version is updated where it stands, so the same run reports the same again.
repeats :
    generate_changelog (codes "v1") (codes "t") files (one ∷ snapshot (codes "v2") [] ∷ [])
    ≡ some (
      record {
        version = codes "v1";
        timestamp = codes "t";
        added = codes "a.x" ∷ codes "c.x" ∷ [];
        removed = [];
      },
      snapshot (codes "v1") (codes "a.x" ∷ codes "c.x" ∷ []) ∷ snapshot (codes "v2") [] ∷ [],
    )
unfolding generate_changelog compare_actions store_snapshot replace_snapshot minus to_set sort_texts
    sort_by
repeats = refl
