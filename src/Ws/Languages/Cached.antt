-- ===== src/Ws/Languages/Cached.antt =====
-- What the cache of languages (ws/context_lang.go) keeps from the first context.
use mathlib.Core.Option
use aqi.Prelude.{String, none, some, ◌≡◌, refl, ap, ◌∙◌, ==_iff, comparable_string, if◌then◌else◌}
use aqi.Prelude.Int.{ℤ}
use aqi.Prelude.Dict.{Dict, get, put, get-put}
use aqi.Ws.Languages.{
  texts, LangInfo, Languages, init_from, init_of, language_init, load_in, i18n_load,
}

module _ (key : String → ℤ → String → String) where
  load-loaded :
      (lang action : String) (code : ℤ) (msg : String) (l : Languages) (info : LangInfo)
      → get l.loaded lang ≡ some info
      → i18n_load key lang action code msg l
        ≡ some (Option.get_or (get info.lang_data (key info.action code msg)) msg, l)
  unfolding i18n_load language_init
  load-loaded lang action code msg l info e =
      ap (λ o. load_in key code msg (init_of lang action o l).0 (init_of lang action o l).1) e

  -- A language file that is first read in a context with one action: from then on every context gets
  -- the text under the key of that first action, whatever its own action is.
  pub load-language_init :
      (lang first later : String) (code : ℤ) (msg : String) (l : Languages) (d : Dict String String)
      → get l.loaded lang ≡ none
      → l.files lang ≡ texts d
      → (let l' = (language_init lang first l).1 in
          i18n_load key lang later code msg l'
          ≡ some (Option.get_or (get d (key first code msg)) msg, l'))
  unfolding language_init
  load-language_init lang first later code msg l d unloaded read =
      let info : LangInfo = record { action = first; lang_data = d } in
      let l' : Languages = (language_init lang first l).1 in
      let opened : l'
          ≡ record { loaded = put l.loaded lang info; files = l.files; writable = l.writable } =
        ap (λ o. (init_of lang first o l).1) unloaded
        ∙ ap (λ f. (init_from lang first f l).1) read in
      load-loaded lang later code msg l' info (
        ap (λ (m : Languages). get m.loaded lang) opened
        ∙ get-put l.loaded lang lang info
        ∙ rw ((==_iff lang lang).1 refl, if◌then◌else◌) refl)
