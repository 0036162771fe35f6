-- ===== src/Utils/RealIp.antt =====
-- utils/ip/real_ip.go: the address of a client. `parse_ip` stands for `net.ParseIP` and
-- `IsGlobalUnicast`, and `split_host` for the host of `net.SplitHostPort`.
pub mod Chosen
mod Examples
use mathlib.Core.List.{reverse}
use aqi.Prelude.{
  ℕ, Bool, true, false, not, ◌&&◌, ◌||◌, List, [], ◌∷◌, ◌++◌, Option, none, some, ◌==◌,
  comparable_nat, map, take, drop, if◌then◌else◌,
}
use aqi.Prelude.Texts.{Text, codes, comparable_text, split, is_char, is_space, trim, text_lt}

-- `net.IP`: 16 bytes; an address of version 4 stands behind ten zeros and 255 twice.
pub record Ip : Type 0 where
  pub octets : List ℕ
  pub is_global : Bool

abbrev pub mapped : List ℕ
mapped = 0 ∷ 0 ∷ 0 ∷ 0 ∷ 0 ∷ 0 ∷ 0 ∷ 0 ∷ 0 ∷ 0 ∷ 255 ∷ 255 ∷ []

abbrev pub version4 : ℕ → ℕ → ℕ → ℕ → List ℕ
version4 a b c d = mapped ++ a ∷ b ∷ c ∷ d ∷ []

-- `ipRange`
pub record IpRange : Type 0 where
  pub start : List ℕ
  pub end : List ℕ

-- `inRange`; `bytes.Compare` goes by the first byte that differs.
unfoldable pub in_range : IpRange → List ℕ → Bool
in_range r ip = not (text_lt ip r.start) && text_lt ip r.end

abbrev pub private_ranges : List IpRange
private_ranges =
    record { start = version4 10 0 0 0; end = version4 10 255 255 255 }
    ∷ record { start = version4 100 64 0 0; end = version4 100 127 255 255 }
    ∷ record { start = version4 172 16 0 0; end = version4 172 31 255 255 }
    ∷ record { start = version4 192 0 0 0; end = version4 192 0 0 255 }
    ∷ record { start = version4 192 168 0 0; end = version4 192 168 255 255 }
    ∷ record { start = version4 198 18 0 0; end = version4 198 19 255 255 }
    ∷ []

abbrev pub in_some_range : List IpRange → List ℕ → Bool
in_some_range [] ip = false
in_some_range (r ∷ rs) ip = in_range r ip || in_some_range rs ip

-- `isPrivateSubnet`
unfoldable pub is_private_subnet : List ℕ → Bool
is_private_subnet ip = take 12 ip == mapped && in_some_range private_ranges ip

module _ (parse_ip : Text → Option Ip) where
  -- The test of the loop; a text that is no address is nil, which is not global.
  unfoldable pub is_public : Text → Bool
  is_public address = elim (parse_ip address) [
    | none ↦ false
    | some ip ↦ ip.is_global && not (is_private_subnet ip.octets)
  ]

  -- The loop from the right to the left, on the addresses in that order.
  unfoldable pub first_public : List Text → Option Text
  first_public [] = none
  first_public (address ∷ addresses) =
      let rest = first_public addresses in
      let ip = trim is_space address in if is_public ip then some ip else rest

  abbrev pub header_address : Text → Option Text
  header_address value = first_public (reverse (split (is_char b',') value))

  abbrev pub or_next : Option Text → Option Text → Option Text
  or_next none o = o
  or_next (some a) o = some a

  abbrev pub or_remote : (Text → Option Text) → Text → Option Text → Text
  or_remote split_host remote (some a) = a
  or_remote split_host remote none = elim (split_host remote) [ none ↦ remote | some host ↦ host ]

  -- `GetIPAddress`, from the headers `X-Forwarded-For` and `X-Real-Ip` and the remote address
  unfoldable pub get_ip_address : (Text → Option Text) → Text → Text → Text → Text
  get_ip_address split_host forwarded real remote =
      or_remote split_host remote (or_next (header_address forwarded) (header_address real))
