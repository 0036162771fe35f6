-- ===== src/Ws/Sending/Replies.antt =====
-- What `SendCode` of ws/context_send.go sends in another language than the default one.
use mathlib.Core.Option
use aqi.Prelude.{
  false, String, Option, none, some, ◌≡◌, refl, ap, ◌∙◌, ◌==◌, comparable_string, if◌then◌else◌,
  Bool-cases, inl, inr,
}
use aqi.Prelude.Int.{ℤ}
use aqi.Prelude.Dict.{Dict, get}
use aqi.Ws.Types.{Hub}
use aqi.Ws.Languages.{Languages, texts, language_init, i18n_load}
use aqi.Ws.Languages.Cached.{load-language_init}
use aqi.Ws.Sending.{
  Context, new, with_id, with_code, with_msg, send_action, learn, translate, send_learned,
  send_translated, send_code,
}

-- A translation that is empty counts as none.
abbrev pub or_message : String → String → String
or_message msg text = if text == "" then msg else text

module _ (key : String → ℤ → String → String) where
  translate_other :
      (code : ℤ) (msg text : String) (c : Context) (l : Languages)
      → c.language == c.default_lng ≡ false
      → i18n_load key c.language c.action code msg l ≡ some (text, l)
      → translate key code msg c l ≡ some (or_message msg text, l)
  unfolding translate
  translate_other code msg text c l other e =
      rw (other, if◌then◌else◌) (go (i18n_load key c.language c.action code msg l) e)
    where
      go :
          (o : Option (String × Languages))
          → o ≡ some (text, l)
          → ◌≡◌ {A = Option (String × Languages)}
              (elim o [ none ↦ none | some (t, l') ↦ some ((if t == "" then msg else t), l') ])
              (some (or_message msg text, l))
      go o h = rw h refl

  no_learn :
      (code : ℤ) (msg : String) (c : Context) (l : Languages)
      → c.language == c.default_lng ≡ false
      → learn key code msg c l ≡ some l
  unfolding learn
  no_learn code msg c l other = elim (Bool-cases c.is_dev) [
    | inl t ↦ rw (t, other, if◌then◌else◌) refl
    | inr f ↦ rw (f, if◌then◌else◌) refl
  ]

  -- In a language that is not the default one, whose file was first read in a context with the action
  -- `first`: `SendCode` answers the request with the code, and with the text that the file has under
  -- the key of `first`, or with the message itself where there is none. The action of the request
  -- plays no part in the choice, and the languages stay as they are.
  pub send_code-language_init :
      (code : ℤ) (msg first : String) (c : Context) (h : Hub) (l : Languages)
      (d : Dict String String)
      → c.language == c.default_lng ≡ false
      → get l.loaded c.language ≡ none
      → l.files c.language ≡ texts d
      → (let l' = (language_init c.language first l).1 in
          let text = or_message msg (Option.get_or (get d (key first code msg)) msg) in
          send_code key code msg c h l'
          ≡ some
              (send_action (with_msg text (with_code code (with_id c.id (new c.action)))) c h, l'))
  unfolding send_code
  send_code-language_init code msg first c h l d other unloaded read =
      let l' : Languages = (language_init c.language first l).1 in
      let loaded = load-language_init key c.language first c.action code msg l d unloaded read in
      ap (send_learned key code msg c h) (no_learn code msg c l' other)
      ∙ ap (send_translated key code c h) (
          translate_other code msg (Option.get_or (get d (key first code msg)) msg) c l' other
            loaded)
