-- ===== src/Docgen/Command/Examples.antt =====
-- Two runs of the documentation generator (internal/cli/cli_docgen.go).
use aqi.Prelude.{false, List, [], ◌∷◌, none, some, ◌≡◌, refl, comparable_nat}
use aqi.Prelude.Dict.{get, put}
use aqi.Prelude.Texts.{Text, codes, comparable_text}
use aqi.Docgen.Doc.{ActionDoc, RouterFile}
use aqi.Docgen.Command.{
  Project, RunResult, document_of, generate_all, text, switch, ensure_auth_section,
  get_package_name,
}

abbrev ping : ActionDoc
ping = record {
  name = codes "ping";
  description = [];
  router_file = [];
  middleware_chain = [];
  middleware_group = [];
  params = [];
  returns = record { success_type = []; error_codes = []; has_data = false };
}

abbrev files : List RouterFile
files =
    record { file_name = codes "action_admin.go"; func_name = codes "Actions"; actions = ping ∷ [] }
    ∷ []

abbrev start : Project
start = record {
  groups = none;
  metadata = record {
    project_name = codes "p";
    version = [];
    description = [];
    author = [];
    contact = [];
  };
  documents = [];
  snapshots = [];
}

abbrev run : Text → Project → RunResult
run now p = generate_all (codes "json") [] (codes "v1") (codes "7") now files p

label :
    (document_of
      (codes "json")
      (record { file_name = codes "action_admin.go"; func_name = []; actions = [] })).label
    ≡ codes "Action Admin API"
unfolding document_of
label = refl

password_is_new :
    ensure_auth_section (some (codes "f0")) ((codes "password", text (codes "admin")) ∷ [])
    ≡ (codes "password", text (codes "f0"))
      ∷ (codes "enabled", switch false)
      ∷ (codes "username", text (codes "admin"))
      ∷ (codes "realm", text (codes "API 文档"))
      ∷ []
unfolding ensure_auth_section get put
password_is_new = refl

module_name : get_package_name (codes "// a" ∷ codes " module a/b " ∷ []) ≡ codes "a/b"
unfolding get_package_name
module_name = refl
