-- ===== src/Utils/RealIp/Chosen.antt =====
-- Which address `GetIPAddress` of utils/ip/real_ip.go chooses.
use mathlib.Core.List.{
  reverse, reverse-append, reverse-cons, reverse-reverse, append_assoc, append-nil,
}
use aqi.Prelude.{
  true, false, List, [], ◌∷◌, ◌++◌, Option, none, some, ◌≡◌, refl, sym, ap, ◌∙◌, All, if◌then◌else◌,
}
use aqi.Prelude.Texts.{Text, split, is_char, is_space, trim}
use aqi.Utils.RealIp.{
  Ip, is_public, first_public, header_address, or_next, or_remote, get_ip_address,
}

module _ (parse_ip : Text → Option Ip) where
  -- None of the addresses is public.
  abbrev pub IsHidden : List Text → Type 0
  IsHidden addresses = All (λ a. is_public parse_ip (trim is_space a) ≡ false) addresses

  first_public-behind :
      (hidden rest : List Text)
      → IsHidden hidden
      → first_public parse_ip (hidden ++ rest) ≡ first_public parse_ip rest
  unfolding first_public
  first_public-behind [] rest h = refl
  first_public-behind (a ∷ hidden) rest h =
      rw (h.0, if◌then◌else◌) (first_public-behind hidden rest h.1)

  first_public-here :
      (a : Text) (rest : List Text)
      → is_public parse_ip (trim is_space a) ≡ true
      → first_public parse_ip (a ∷ rest) ≡ some (trim is_space a)
  unfolding first_public
  first_public-here a rest h = rw (h, if◌then◌else◌) refl

  -- The public address of `X-Forwarded-For` with no public one to the right of it is the answer, without
  -- the spaces around it, whatever stands to the left of it, in the other header and in the connection.
  pub get_ip_address_last :
      (split_host : Text → Option Text) (forwarded real remote : Text) (before : List Text)
      (a : Text) (hidden : List Text)
      → split (is_char b',') forwarded ≡ before ++ a ∷ reverse hidden
      → is_public parse_ip (trim is_space a) ≡ true
      → IsHidden hidden
      → get_ip_address parse_ip split_host forwarded real remote ≡ trim is_space a
  unfolding get_ip_address
  get_ip_address_last split_host forwarded real remote before a hidden e public h =
      let turned : reverse (before ++ a ∷ reverse hidden) ≡ hidden ++ a ∷ reverse before =
        reverse-append before (a ∷ reverse hidden)
        ∙ ap (λ l. l ++ reverse before) (reverse-cons a (reverse hidden))
        ∙ append_assoc (reverse (reverse hidden)) (a ∷ []) (reverse before)
        ∙ ap (λ l. l ++ a ∷ reverse before) (reverse-reverse hidden) in
      let found : header_address parse_ip forwarded ≡ some (trim is_space a) =
        ap (λ l. first_public parse_ip (reverse l)) e
        ∙ ap (first_public parse_ip) turned
        ∙ first_public-behind hidden (a ∷ reverse before) h
        ∙ first_public-here a (reverse before) public in
      ap
        (λ o.
          or_remote parse_ip split_host remote (or_next parse_ip o (header_address parse_ip real)))
        found

  -- Without a public address in either header, the answer is the host of the connection.
  pub get_ip_address_hidden :
      (split_host : Text → Option Text) (forwarded real remote : Text)
      → IsHidden (reverse (split (is_char b',') forwarded))
      → IsHidden (reverse (split (is_char b',') real))
      → get_ip_address parse_ip split_host forwarded real remote
        ≡ or_remote parse_ip split_host remote none
  unfolding get_ip_address first_public
  get_ip_address_hidden split_host forwarded real remote h k =
      let none_in : (l : List Text) → IsHidden l → first_public parse_ip l ≡ none =
        (λ l m. ap (first_public parse_ip) (sym (append-nil l)) ∙ first_public-behind l [] m) in
      ap
        (λ o.
          or_remote parse_ip split_host remote (or_next parse_ip o (header_address parse_ip real)))
        (none_in (reverse (split (is_char b',') forwarded)) h)
      ∙ ap (or_remote parse_ip split_host remote) (none_in (reverse (split (is_char b',') real)) k)
