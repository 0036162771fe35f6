-- ===== src/Docgen/Routers/Examples.antt =====
-- A small router file (internal/docgen/parser.go).
use aqi.Prelude.{true, false, [], ◌∷◌, none, some, ◌≡◌, refl}
use aqi.Prelude.Texts.{Text, codes}
use aqi.Docgen.Syntax.{
  Node, ident, call, selector, string_lit, func_lit, func_decl, assign, other, nothing, also, visit,
  method_call,
}
use aqi.Docgen.Packages.{GoFile, FileSystem}
use aqi.Docgen.Routers.{scan_router_files, registers, is_add}

abbrev not_printed : Node → Text
not_printed n = []

abbrev no_files : FileSystem
no_files dir = []

-- `app := ws.NewRouter(); app.Add("user.get", func() {})`
abbrev body : Node
body = other (
    also
      (assign true (also (ident (codes "app")) nothing)
        (also (call (selector (ident (codes "ws")) (codes "NewRouter")) nothing) nothing))
      (also
        (call (selector (ident (codes "app")) (codes "Add"))
          (also (string_lit (codes "\"user.get\"")) (also (func_lit (other nothing)) nothing)))
        nothing))

abbrev file : GoFile
file = record {
  package_name = codes "router";
  imports = [];
  tree = other (also (func_decl (codes "Actions") none (also body nothing)) nothing);
}

scanned :
    scan_router_files (record { name = codes "action.go"; is_dir = false; parsed = some file } ∷ [])
    ≡ (
      record { file_name = codes "action.go"; func_name = codes "Actions"; actions = [] } ∷ [],
      true,
    )
unfolding scan_router_files visit registers is_add method_call
scanned = refl
