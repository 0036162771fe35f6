-- ===== src/Docgen/Config.antt =====
-- The configuration of internal/docgen/parser.go: the groups that `LoadCategoryConfig` adds, and the
-- list of documents that `UpdateDocumentsInConfig` merges. Reading and writing the file is left out.
pub mod Groups
pub mod Documents
mod Examples
use mathlib.Core.List.{foldl}
use aqi.Prelude.{
  ℕ, Bool, true, false, not, ◌&&◌, ◌||◌, List, [], ◌∷◌, ◌++◌, Option, none, some, ◌==◌, contains,
  map, filter, if◌then◌else◌,
}
use aqi.Prelude.Dict.{Dict, get, put}
use aqi.Prelude.Texts.{Text, codes, comparable_text, split, is_char, ends_with, is_empty}
use aqi.Docgen.Doc.{ActionDoc}

-- `parts[0]` of a split, which is never empty
abbrev pub head_text : List Text → Text
head_text [] = []
head_text (t ∷ ts) = t

-- The text before the first dot.
abbrev pub prefix_of : Text → Text
prefix_of name = head_text (split (is_char b'.') name)

-- `generateDefaultConfig`: the group names
abbrev pub default_groups : List ActionDoc → Dict Text Text → Dict Text Text
default_groups [] groups = groups
default_groups (a ∷ actions) groups =
    let prefix = prefix_of a.name in
    default_groups actions
      (elim (get groups prefix) [ none ↦ put groups prefix prefix | some old ↦ groups ])

-- The loop of `LoadCategoryConfig` that adds the missing groups; whether one was added.
unfoldable pub add_groups : List Text → Dict Text Text → Bool × Dict Text Text
add_groups [] groups = (false, groups)
add_groups (prefix ∷ prefixes) groups = elim (get groups prefix) [
  | some name ↦ add_groups prefixes groups
  | none ↦ (true, (add_groups prefixes (put groups prefix prefix)).1)
]

-- `DocumentInfo`
pub record DocumentInfo : Type 0 where
  pub name : Text
  pub label : Text
  pub file : Text

-- Whether the file stands in `autoGenMap`.
abbrev pub is_generated : List DocumentInfo → Text → Bool
is_generated documents file =
    not (is_empty file) && contains file (map (λ (d : DocumentInfo). d.file) documents)

-- `currentExt`
abbrev pub extension : Text → Text
extension format = if format == codes "markdown" then codes ".md" else codes ".json"

-- The loop over the documents of the file: those that are kept.
unfoldable pub keep_existing : Text → List DocumentInfo → List DocumentInfo → List DocumentInfo
keep_existing ext documents [] = []
keep_existing ext documents (d ∷ existing) =
    let rest = keep_existing ext documents existing in
    if is_generated documents d.file
    then record { name = d.name; label = d.label; file = d.file } ∷ rest
    else if not (is_empty d.file) && ends_with ext d.file
    then d ∷ rest
    else rest

-- The loop over the generated documents: those whose file is not among the kept ones.
unfoldable pub add_new : List Text → List DocumentInfo → List DocumentInfo
add_new kept [] = []
add_new kept (d ∷ documents) =
    let rest = add_new kept documents in if not (contains d.file kept) then d ∷ rest else rest

-- `UpdateDocumentsInConfig`: the merged list
unfoldable pub merge_documents : Text → List DocumentInfo → List DocumentInfo → List DocumentInfo
merge_documents format existing documents =
    let kept = keep_existing (extension format) documents existing in
    kept ++ add_new (map (λ (d : DocumentInfo). d.file) kept) documents
