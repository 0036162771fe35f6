-- ===== src/Utils/RealIp/Examples.antt =====
-- Addresses of a request (utils/ip/real_ip.go).
use aqi.Prelude.{
  true, false, [], ◌∷◌, Option, none, some, ◌≡◌, refl, ◌==◌, comparable_nat, if◌then◌else◌,
}
use aqi.Prelude.Texts.{Text, codes, comparable_text}
use aqi.Utils.RealIp.{Ip, version4, in_range, is_private_subnet, is_public, get_ip_address}
use aqi.Utils.RealIp.Chosen.{get_ip_address_last, get_ip_address_hidden}

-- Two addresses, one of a private net
abbrev parse_ip : Text → Option Ip
parse_ip t =
    if t == codes "9.9.9.9"
    then some (record { octets = version4 9 9 9 9; is_global = true })
    else if t == codes "10.0.0.1"
    then some (record { octets = version4 10 0 0 1; is_global = true })
    else none

abbrev no_host : Text → Option Text
no_host t = none

get_ip_address_last_example :
    get_ip_address parse_ip no_host (codes "8.8.8.8, 9.9.9.9 ,10.0.0.1") [] (codes "1.1.1.1")
    ≡ codes "9.9.9.9"
unfolding is_public is_private_subnet in_range
get_ip_address_last_example =
    get_ip_address_last parse_ip no_host (codes "8.8.8.8, 9.9.9.9 ,10.0.0.1") [] (codes "1.1.1.1")
      (codes "8.8.8.8" ∷ []) (codes " 9.9.9.9 ") (codes "10.0.0.1" ∷ []) refl refl (refl, tt)

get_ip_address_hidden_example :
    get_ip_address parse_ip no_host (codes "10.0.0.1") [] (codes "1.1.1.1") ≡ codes "1.1.1.1"
unfolding is_public is_private_subnet in_range
get_ip_address_hidden_example =
    get_ip_address_hidden parse_ip no_host (codes "10.0.0.1") [] (codes "1.1.1.1") (refl, tt)
      (refl, tt)

-- The last address of a private range counts as public.
last_is_public : is_private_subnet (version4 10 255 255 255) ≡ false
unfolding is_private_subnet in_range
last_is_public = refl
