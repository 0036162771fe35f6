-- ===== src/Docgen/Command/Runs.antt =====
-- What runs of `runDocgen` (internal/cli/cli_docgen.go) leave.
use aqi.Prelude.{List, [], ◌∷◌, Option, none, ◌==◌, comparable_nat, if◌then◌else◌}
use aqi.Prelude.Texts.{Text, codes, comparable_text, is_empty}
use aqi.Docgen.Doc.{RouterFile}
use aqi.Docgen.Config.{DocumentInfo, merge_documents}
use aqi.Docgen.Changelog.{Snapshot, Entry, generate_changelog}
use aqi.Docgen.Command.{Output}

abbrev pub output_files : List (Text × Output) → List Text
output_files [] = []
output_files ((file, output) ∷ outputs) = file ∷ output_files outputs

abbrev merged : Text → List DocumentInfo → List DocumentInfo → List DocumentInfo
merged format new old = if is_empty new then old else merge_documents format old new

abbrev changed :
    Text → Text → Text → List RouterFile → List Snapshot → Option (Entry × List Snapshot)
changed format count now files snapshots =
    if format == codes "json" then generate_changelog count now files snapshots else none
