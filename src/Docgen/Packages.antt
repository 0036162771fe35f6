-- ===== src/Docgen/Packages.antt =====
-- The packages that internal/docgen/parser.go looks up: `findPackagePath`, `findPackageByFuncName`,
-- `findHandlerFile` and `findTypeFile`. `read_dir` stands for the file system and package go/parser:
-- the entries of a directory in order, none where it cannot be read.
use aqi.Prelude.{
  Bool, false, not, ◌&&◌, ◌||◌, List, [], ◌∷◌, ◌++◌, Option, none, some, ◌==◌, comparable_nat,
  if◌then◌else◌,
}
use aqi.Prelude.Texts.{Text, codes, comparable_text, holds, behind, split, is_char, ends_with}
use aqi.Docgen.Syntax.{Node, type_spec, func_decl, struct_type, visit, never}

-- A parsed file; the paths of the imports are without quotes.
pub record GoFile : Type 0 where
  pub package_name : Text
  pub imports : List Text
  pub tree : Node

-- `parsed` is none where the parser fails.
pub record DirEntry : Type 0 where
  pub name : Text
  pub is_dir : Bool
  pub parsed : Option GoFile

abbrev pub FileSystem : Type 0
FileSystem = Text → List DirEntry

-- The last part of a path.
abbrev pub last_part : List Text → Text
last_part [] = []
last_part (t ∷ []) = t
last_part (t ∷ u ∷ ts) = last_part (u ∷ ts)

-- `findPackagePath`; "" where there is none
unfoldable pub find_package_path : Text → List Text → Text
find_package_path pkg [] = []
find_package_path pkg (path ∷ imports) =
    let rest = find_package_path pkg imports in
    if holds (codes "/internal/") path && last_part (split (is_char b'/') path) == pkg
    then path
    else rest

-- The directory of a package: behind the first `/internal/`. A path that is imported is clean, so
-- `filepath.Dir` of a file in it gives the same directory.
abbrev pub package_dir : Text → Option Text
package_dir path = elim (behind (codes "/internal/") path) [
  | none ↦ none
  | some rest ↦ some (codes "internal/" ++ rest)
]

-- The first Go file of the entries that parses and passes the test.
unfoldable pub first_file : (GoFile → Bool) → List DirEntry → Option GoFile
first_file p [] = none
first_file p (e ∷ entries) =
    let rest = first_file p entries in
    if e.is_dir || not (ends_with (codes ".go") e.name)
    then rest
    else elim e.parsed [ none ↦ rest | some file ↦ (if p file then some file else rest) ]

unfoldable pub is_func : Text → Node → Bool
is_func name (func_decl f doc body) = f == name
is_func name n = false

unfoldable pub is_struct_spec : Text → Node → Bool
is_struct_spec name (type_spec t (struct_type fields)) = t == name
is_struct_spec name n = false

abbrev pub any_node : (Node → Bool) → List Node → Bool
any_node p [] = false
any_node p (n ∷ ns) = p n || any_node p ns

module _ (read_dir : FileSystem) where
  -- A file with a node that passes the test, and the directory it is in.
  unfoldable pub find_file : (Node → Bool) → Text → Option (Text × GoFile)
  find_file p path = elim (package_dir path) [
    | none ↦ none
    | some dir ↦ elim (first_file (λ file. any_node p (visit never file.tree)) (read_dir dir)) [
      | none ↦ none
      | some file ↦ some (dir, file)
    ]
  ]

  -- `findHandlerFile`
  abbrev pub find_handler_file : Text → Text → Option (Text × GoFile)
  find_handler_file path func_name = find_file (is_func func_name) path

  -- `findTypeFile`
  abbrev pub find_type_file : Text → Text → Option (Text × GoFile)
  find_type_file path type_name = find_file (is_struct_spec type_name) path

  -- `findPackageByFuncName`
  unfoldable pub find_package_by_func_name : Text → List Text → Text
  find_package_by_func_name func_name [] = []
  find_package_by_func_name func_name (path ∷ imports) =
      let rest = find_package_by_func_name func_name imports in
      if holds (codes "/internal/") path
      then elim (find_handler_file path func_name) [ none ↦ rest | some found ↦ path ]
      else rest
