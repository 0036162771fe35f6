-- ===== src/Docgen/Command.antt =====
-- `runDocgen`, `ensureAuthSection` and `getPackageName` of internal/cli/cli_docgen.go, on what the files
-- hold. Writing the files is taken to succeed.
pub mod Runs
mod Examples
use aqi.Prelude.{
  ℕ, ◌+◌, Bool, true, false, not, ◌&&◌, ◌||◌, List, [], ◌∷◌, ◌++◌, Option, none, some, ◌==◌,
  comparable_nat, map, if◌then◌else◌, leb,
}
use aqi.Prelude.Dict.{Dict, get, put}
use aqi.Prelude.Texts.{
  Text, codes, comparable_text, split, is_char, is_space, is_empty, join_texts, starts_with, trim,
  trim_prefix,
}
use aqi.Docgen.Doc.{ActionDoc, RouterFile, Metadata}
use aqi.Docgen.Syntax.{Node}
use aqi.Docgen.Packages.{GoFile, DirEntry, FileSystem}
use aqi.Docgen.Routers.{scan_router_files, parse_router_file}
use aqi.Docgen.Config.{
  DocumentInfo, prefix_of, default_groups, add_groups, merge_documents, extension,
}
use aqi.Docgen.Changelog.{Snapshot, Entry, to_set, generate_changelog}
use aqi.Docgen.Groups.{trim_suffix, upper}
use aqi.Docgen.Json.{JsonDocument, generate_json}
use aqi.Docgen.Markdown.{generate_markdown}

-- What the directory of documents holds; `groups` is none where there is no configuration file.
pub record Project : Type 0 where
  pub groups : Option (Dict Text Text)
  pub metadata : Metadata
  pub documents : List DocumentInfo
  pub snapshots : List Snapshot

pub data Output : Type 0 where
  json : JsonDocument → Output
  markdown : Text → Output

-- What a run leaves: the directory, the changelog and the files with their names.
pub record RunResult : Type 0 where
  pub project : Project
  pub changelog : Option Entry
  pub outputs : List (Text × Output)

pub data Outcome : Type 0 where
  scan_failed : Outcome
  no_routers : Outcome
  generated : RunResult → Outcome

abbrev pub lower : ℕ → ℕ
lower c = if leb b'A' c && leb c b'Z' then c + 32 else c

-- One part of the label, in ASCII
abbrev pub capitalized : Text → Text
capitalized [] = []
capitalized (c ∷ t) = upper c ∷ map lower t

abbrev pub base_name : Text → Text
base_name file_name = trim_suffix (codes ".go") file_name

abbrev pub is_word_end : ℕ → Bool
is_word_end c = c == b'_' || c == b' '

-- The document of a router file.
unfoldable pub document_of : Text → RouterFile → DocumentInfo
document_of format rf =
    let base = base_name rf.file_name in
    record {
      name = base;
      label = join_texts (codes " ") (map capitalized (split is_word_end base)) ++ codes " API";
      file = codes "cmd_api_" ++ (base ++ extension format);
    }

-- The router files that get a document.
abbrev pub documented : List RouterFile → List RouterFile
documented [] = []
documented (rf ∷ files) =
    let rest = documented files in if is_empty rf.actions then rest else rf ∷ rest

unfoldable pub output_of :
    Text
    → Option (Dict Text Text)
    → Metadata
    → Text
    → Text
    → Text
    → Option Entry
    → RouterFile
    → Output
output_of format names m usage version now changelog rf =
    if format == codes "markdown"
    then markdown (generate_markdown names m usage (rf ∷ []))
    else json (generate_json names m version now (rf ∷ []) changelog)

-- The groups that `LoadCategoryConfig` leaves.
unfoldable pub load_groups : Option (Dict Text Text) → List ActionDoc → Dict Text Text
load_groups none actions =
    (add_groups (to_set (map (λ (a : ActionDoc). prefix_of a.name) actions))
      (default_groups actions [])).1
load_groups (some groups) actions =
    (add_groups (to_set (map (λ (a : ActionDoc). prefix_of a.name) actions)) groups).1

abbrev pub all_actions : List RouterFile → List ActionDoc
all_actions [] = []
all_actions (rf ∷ files) = rf.actions ++ all_actions files

abbrev pub changes : Option (Entry × List Snapshot) → Option Entry
changes none = none
changes (some (e, stored)) = some e

abbrev pub stored_snapshots : List Snapshot → Option (Entry × List Snapshot) → List Snapshot
stored_snapshots old none = old
stored_snapshots old (some (e, stored)) = stored

-- Steps 4 to 8 of `runDocgen`, from the parsed router files; `count` is the version of the changelog.
unfoldable pub generate_all :
    Text → Text → Text → Text → Text → List RouterFile → Project → RunResult
generate_all format usage version count now files p =
    let groups = load_groups p.groups (all_actions files) in
    let changed =
      if format == codes "json" then generate_changelog count now files p.snapshots else none in
    let documents = map (document_of format) (documented files) in
    record {
      project = record {
        groups = some groups;
        metadata = p.metadata;
        documents =
            if is_empty documents
            then p.documents
            else merge_documents format p.documents documents;
        snapshots = stored_snapshots p.snapshots changed;
      };
      changelog = changes changed;
      outputs =
          map
            (λ rf. (
              (document_of format rf).file,
              output_of format (some groups) p.metadata usage version now (changes changed) rf,
            ))
            (documented files);
    }

-- The file of a name in the router directory.
abbrev pub find_entry : List DirEntry → Text → Option GoFile
find_entry [] name = none
find_entry (e ∷ entries) name =
    let rest = find_entry entries name in if e.name == name then e.parsed else rest

abbrev pub actions_or_empty : Option (List ActionDoc) → List ActionDoc
actions_or_empty none = []
actions_or_empty (some actions) = actions

module _ (printed : Node → Text) (read_dir : FileSystem) (dir : Text) where
  -- `ParseRouterFile` of a file that is found by its base name; a file that fails has no actions.
  abbrev pub parse_named : RouterFile → Option GoFile → Option (List ActionDoc)
  parse_named rf none = none
  parse_named rf (some file) = parse_router_file printed read_dir file dir rf.file_name rf.func_name

  unfoldable pub parse_all : List RouterFile → List RouterFile
  parse_all [] = []
  parse_all (rf ∷ files) =
      record {
        file_name = rf.file_name;
        func_name = rf.func_name;
        actions = actions_or_empty (parse_named rf (find_entry (read_dir dir) rf.file_name));
      }
      ∷ parse_all files

  -- `runDocgen`; `walked` is what `filepath.Walk` visits.
  unfoldable pub run_docgen : Text → Text → Text → Text → Text → List DirEntry → Project → Outcome
  run_docgen format usage version count now walked p =
      let (files, all) = scan_router_files walked in
      if not all
      then scan_failed
      else if is_empty files
      then no_routers
      else generated (generate_all format usage version count now (parse_all files) p)

-- The values of the section `auth`; a value of another kind than text is `other`.
pub data Setting : Type 0 where
  text : Text → Setting
  switch : Bool → Setting
  other : Setting

abbrev pub set_default : Text → Setting → Dict Text Setting → Dict Text Setting
set_default key value auth = elim (get auth key) [ none ↦ put auth key value | some old ↦ auth ]

abbrev pub text_of : Option Setting → Text
text_of (some (text t)) = t
text_of o = []

-- `ensureAuthSection`, from the section, [] where it is missing, and the random text, if there is one.
unfoldable pub ensure_auth_section : Option Text → Dict Text Setting → Dict Text Setting
ensure_auth_section random section =
    let named = set_default (codes "realm") (text (codes "API 文档")) (
      set_default (codes "username") (text (codes "admin"))
        (set_default (codes "enabled") (switch false) section)) in
    let password = text_of (get named (codes "password")) in
    let new : Text = elim random [ none ↦ codes "change_me" | some r ↦ r ] in
    if is_empty password || password == codes "admin"
    then put named (codes "password") (text new)
    else named

-- `getPackageName`, from the lines of go.mod
unfoldable pub get_package_name : List Text → Text
get_package_name [] = []
get_package_name (line ∷ lines) =
    let rest = get_package_name lines in
    let trimmed = trim is_space line in
    if starts_with (codes "module ") trimmed then trim_prefix (codes "module ") trimmed else rest
