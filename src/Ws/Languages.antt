-- ===== src/Ws/Languages.antt =====
-- ws/context_lang.go and ws/context_i18n.go: the texts of a language, cached in `langMap` and kept in a
-- file. `key` stands for the text that `fmt.Sprintf` makes of an action, a code and the hash of a
-- message by package hash/fnv.
pub mod Cached
use mathlib.Core.Option
use aqi.Prelude.{
  ℕ, Bool, true, false, String, List, [], ◌∷◌, Option, none, some, ◌==◌, comparable_string,
  if◌then◌else◌,
}
use aqi.Prelude.Int.{ℤ}
use aqi.Prelude.Dict.{Dict, get, put}

-- A language file after `CreateFileIfNotExists`.
pub data LangFile : Type 0 where
  unreadable : LangFile
  empty : LangFile
  broken : LangFile
  texts : Dict String String → LangFile

-- `langInfo`; of the context only the action is used.
pub record LangInfo : Type 0 where
  pub action : String
  pub lang_data : Dict String String

-- `langMap` and the files; `writable` tells whether a file can be written.
pub record Languages : Type 0 where
  pub loaded : Dict String LangInfo
  pub files : String → LangFile
  pub writable : Bool

abbrev pub init_from : String → String → LangFile → Languages → Option LangInfo × Languages
init_from lang action unreadable l = (none, l)
init_from lang action empty l = (some (record { action = action; lang_data = [] }), l)
init_from lang action broken l = (none, l)
init_from lang action (texts d) l =
    let info : LangInfo = record { action = action; lang_data = d } in
    (some info, record { loaded = put l.loaded lang info; files = l.files; writable = l.writable })

abbrev pub init_of : String → String → Option LangInfo → Languages → Option LangInfo × Languages
init_of lang action none l = init_from lang action (l.files lang) l
init_of lang action (some info) l = (some info, l)

-- `languageInit`, in a context with the action
unfoldable pub language_init : String → String → Languages → Option LangInfo × Languages
language_init lang action l = init_of lang action (get l.loaded lang) l

abbrev pub write_file : String → Dict String String → Languages → Languages
write_file lang d l =
    if l.writable
    then record {
      loaded = l.loaded;
      files = λ other. (if other == lang then texts d else l.files other);
      writable = l.writable;
    }
    else l

-- The new texts, also in `langMap` where the language is stored in it.
abbrev pub store_texts : String → LangInfo → Option LangInfo → Languages → Languages
store_texts lang info none l = l
store_texts lang info (some old) l = record {
  loaded = put l.loaded lang info;
  files = l.files;
  writable = l.writable;
}

module _ (key : String → ℤ → String → String) where
  -- `set`
  abbrev pub set_in : String → ℤ → String → Option LangInfo → Languages → Option Languages
  set_in lang code msg none l = none
  set_in lang code msg (some info) l =
      let k = key info.action code msg in
      let d = put info.lang_data k msg in
      elim (get info.lang_data k) [
        | some old ↦ some l
        | none ↦ some (
            write_file lang d (
              store_texts lang (record { action = info.action; lang_data = d }) (get l.loaded lang)
                l))
      ]

  -- `i18nSet`; a nil pointer panics.
  unfoldable pub i18n_set : String → String → ℤ → String → Languages → Option Languages
  i18n_set lang action code msg l =
      let (info, l') = language_init lang action l in set_in lang code msg info l'

  -- `load`
  abbrev pub load_in : ℤ → String → Option LangInfo → Languages → Option (String × Languages)
  load_in code msg none l = none
  load_in code msg (some info) l =
      some (Option.get_or (get info.lang_data (key info.action code msg)) msg, l)

  -- `i18nLoad`
  unfoldable pub i18n_load : String → String → ℤ → String → Languages → Option (String × Languages)
  i18n_load lang action code msg l =
      let (info, l') = language_init lang action l in load_in code msg info l'
