-- ===== src/Docgen/Changelog.antt =====
-- `GenerateGlobalChangelog` of internal/docgen/generator.go: the changelog, and the list of
-- snapshots in api_snapshots.json. A map with the value true is the list of its keys.
pub mod Differences
pub mod Snapshots
mod Examples
use aqi.Prelude.{
  ℕ, ◌-◌, Bool, true, false, not, ◌&&◌, List, [], ◌∷◌, ◌++◌, Option, none, some, ◌==◌, contains,
  filter, length, drop, map, if◌then◌else◌, ltb,
}
use aqi.Prelude.Texts.{Text, codes, comparable_text, is_empty}
use aqi.Prelude.Sorting.{sort_texts}
use aqi.Docgen.Doc.{ActionDoc, RouterFile}

-- `ApiSnapshot`
pub record Snapshot : Type 0 where
  pub version : Text
  pub timestamp : Text
  pub actions : List Text

-- `ChangelogEntry`
pub record Entry : Type 0 where
  pub version : Text
  pub timestamp : Text
  pub added : List Text
  pub removed : List Text

-- `set[name] = true` for each name
unfoldable pub to_set : List Text → List Text
to_set [] = []
to_set (name ∷ names) = let rest = to_set names in if contains name rest then rest else name ∷ rest

-- The names of all actions.
abbrev pub action_names : List RouterFile → List Text
action_names [] = []
action_names (rf ∷ files) = map (λ (a : ActionDoc). a.name) rf.actions ++ action_names files

-- `previousSnapshot`: the last one of the file
abbrev pub last_snapshot : List Snapshot → Option Snapshot
last_snapshot [] = none
last_snapshot (s ∷ []) = some s
last_snapshot (s ∷ t ∷ rest) = last_snapshot (t ∷ rest)

-- The members of the first set that the second has not, sorted.
unfoldable pub minus : List Text → List Text → List Text
minus xs ys = sort_texts (filter (λ a. not (contains a ys)) xs)

-- The two lists of the changelog.
unfoldable pub compare_actions : List Text → Option Snapshot → List Text × List Text
unfolding minus
compare_actions current none = (sort_texts current, [])
compare_actions current (some s) =
    let previous = to_set s.actions in (minus current previous, minus previous current)

-- The loop that updates a snapshot of the same version: the first one; whether there is one.
unfoldable pub replace_snapshot : Snapshot → List Snapshot → Bool × List Snapshot
replace_snapshot new [] = (false, [])
replace_snapshot new (s ∷ rest) =
    let (found, updated) = replace_snapshot new rest in
    if s.version == new.version then (true, new ∷ rest) else (found, s ∷ updated)

-- At most 50 snapshots are kept, the last ones.
abbrev pub max_snapshots : ℕ
max_snapshots = 50

unfoldable pub store_snapshot : Snapshot → List Snapshot → List Snapshot
store_snapshot new snapshots =
    let (found, updated) = replace_snapshot new snapshots in
    let all = if found then updated else snapshots ++ new ∷ [] in
    if ltb max_snapshots (length all) then drop (length all - max_snapshots) all else all

-- `GenerateGlobalChangelog`, from the version and the time, and the snapshots of the file, [] where
-- it cannot be read: an entry and the snapshots to write, or nothing.
unfoldable pub generate_changelog :
    Text → Text → List RouterFile → List Snapshot → Option (Entry × List Snapshot)
generate_changelog version now files snapshots =
    let current = to_set (action_names files) in
    let (added, removed) = compare_actions current (last_snapshot snapshots) in
    if version == codes "-"
    then none
    else if is_empty added && is_empty removed
    then none
    else some (
      record { version = version; timestamp = now; added = added; removed = removed },
      store_snapshot (record { version = version; timestamp = now; actions = sort_texts current })
          snapshots,
    )
