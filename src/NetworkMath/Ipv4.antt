-- ===== src/NetworkMath/Ipv4.antt =====
-- client/static/js/network_math.js, `parseAndValidateIPv4`: an IPv4 address with an optional prefix
-- length, its network address and its normal form. Values that are not strings are `none`.
pub mod Network
pub mod Octets
pub mod Grammar
pub mod Normal
use networkat_cloud_web_app.Prelude.{
  ℕ, suc, ◌+◌, ◌-◌, ◌≡◌, Bool, true, false, not, ◌&&◌, ◌||◌, Option, none, some, List, [], ◌∷◌,
  ◌++◌, map, ltb, leb, ◌==◌, if◌then◌else◌, length, get_or, is_nil, keep, bit_and, Result, ok, err,
  ◌>>=◌, ◌>>◌, reject,
}
use networkat_cloud_web_app.Prelude.Text.{Text, codes, text_eq, trim, includes, split_on, join}
use networkat_cloud_web_app.Prelude.Decimal.{show, parse_int, is_digits, has_leading_zero}
use networkat_cloud_web_app.Prelude.Word.{shl, shr}

-- `octet_...` carries `i + 1` and the octet as the message shows it.
pub data Ipv4Error : Type 0 where
  required only_ipv4 many_slashes mask_not_allowed mask_required octet_count : Ipv4Error
  octet_invalid octet_leading_zero octet_out_of_range : ℕ → Text → Ipv4Error
  mask_invalid mask_leading_zero mask_out_of_range : Text → Ipv4Error

pub record Ipv4Options : Type 0 where
  pub require_mask : Bool
  pub allow_mask : Bool
  pub normalize_subnet : Bool

pub record Ipv4 : Type 0 where
  pub raw : Text
  pub ip : Text
  pub prefix : Option ℕ
  pub has_mask : Bool
  pub network_ip : Text
  pub normalized : Text
  pub was_adjusted : Bool

-- `octet || 'empty'`
octet_shown : Text → Text
octet_shown octet = if is_nil octet then codes "empty" else octet

-- One round of the loop over the octets; `i` counts from 0.
unfoldable pub parse_octet : ℕ → Text → Result Ipv4Error ℕ
unfolding octet_shown
parse_octet i octet = do
  reject (is_nil octet || not (is_digits octet)) (octet_invalid (i + 1) (octet_shown octet))
  reject (has_leading_zero octet) (octet_leading_zero (i + 1) octet)
  let num = parse_int octet
  reject (ltb 255 num) (octet_out_of_range (i + 1) octet)
  ok num

unfoldable pub parse_octets : ℕ → List Text → Result Ipv4Error (List ℕ)
parse_octets i [] = ok []
parse_octets i (octet ∷ octets) = do
  num ← parse_octet i octet
  nums ← parse_octets (i + 1) octets
  ok (num ∷ nums)

unfoldable pub parse_mask : Text → Result Ipv4Error ℕ
parse_mask mask = do
  reject (is_nil mask || not (is_digits mask)) (mask_invalid mask)
  reject (has_leading_zero mask) (mask_leading_zero mask)
  let prefix = parse_int mask
  reject (ltb 32 prefix) (mask_out_of_range mask)
  ok prefix

-- `undefined` is `none`
unfoldable pub parse_prefix : Option Text → Result Ipv4Error (Option ℕ)
parse_prefix none = ok none
parse_prefix (some mask) = do prefix ← parse_mask mask; ok (some prefix)

unfoldable pub ip32_of : List ℕ → ℕ
unfolding shl
ip32_of nums =
    shl (get_or nums 0 0) 24 + shl (get_or nums 1 0) 16 + shl (get_or nums 2 0) 8 + get_or nums 3 0

unfoldable pub netmask32 : ℕ → ℕ
unfolding shl
netmask32 prefix = if prefix == 0 then 0 else shl 0xffff_ffff (32 - prefix)

unfoldable pub net32_of : ℕ → ℕ → ℕ
net32_of ip32 prefix = bit_and ip32 (netmask32 prefix)

dot : Text
dot = codes "."

-- `${net0}.${net1}.${net2}.${net3}`
unfoldable pub dotted : ℕ → Text
unfolding dot
dotted net32 =
    show (bit_and (shr net32 24) 255)
    ++ b'.'
      ∷ (show (bit_and (shr net32 16) 255)
          ++ b'.' ∷ (show (bit_and (shr net32 8) 255) ++ b'.' ∷ show (bit_and net32 255)))

-- `networkIp`: the input's own address unless there is a prefix and the caller wants it normalised
unfoldable pub network_ip_of : Ipv4Options → Text → ℕ → Option ℕ → Text
network_ip_of options ip ip32 none = ip
network_ip_of options ip ip32 (some prefix) =
    if options.normalize_subnet then dotted (net32_of ip32 prefix) else ip

unfoldable pub with_prefix : Text → Option ℕ → Text
with_prefix ip none = ip
with_prefix ip (some prefix) = ip ++ b'/' ∷ show prefix

abbrev is_some : Option ℕ → Bool
is_some none = false
is_some (some _) = true

unfoldable pub ipv4_result : Ipv4Options → Text → Text → List ℕ → Option ℕ → Ipv4
ipv4_result options raw ip nums prefix =
    let network_ip = network_ip_of options ip (ip32_of nums) prefix in
    record {
      raw = raw;
      ip = ip;
      prefix = prefix;
      has_mask = is_some prefix;
      network_ip = network_ip;
      normalized = with_prefix network_ip prefix;
      was_adjusted = not (text_eq network_ip ip);
    }

-- The text split at its slash: the address, and the mask if there is one.
unfoldable pub split_mask : Ipv4Options → Text → Result Ipv4Error (Text × Option Text)
split_mask options trimmed =
    let slash_count = length (keep (λ c. c == b'/') trimmed) in
    let parts = split_on b'/' trimmed in
    if ltb 1 slash_count
    then err many_slashes
    else if slash_count == 1
    then (if options.allow_mask
        then ok (get_or parts 0 [], some (get_or parts 1 []))
        else err mask_not_allowed)
    else if options.require_mask
    then err mask_required
    else ok (trimmed, none)

unfoldable pub parse_trimmed : Ipv4Options → Text → Result Ipv4Error Ipv4
parse_trimmed options trimmed = do
  reject (is_nil trimmed) required
  reject (includes b':' trimmed) only_ipv4
  (ip, mask) ← split_mask options trimmed
  let octets = split_on b'.' ip
  reject (not (length octets == 4)) octet_count
  nums ← parse_octets 0 octets
  prefix ← parse_prefix mask
  ok (ipv4_result options trimmed ip nums prefix)

unfoldable pub parse_and_validate_ipv4 : Ipv4Options → Option Text → Result Ipv4Error Ipv4
parse_and_validate_ipv4 options none = err required
parse_and_validate_ipv4 options (some input) =
    if is_nil input then err required else parse_trimmed options (trim input)

-- The options most callers pass, and those of the peers' subnets.
abbrev pub plain_options : Ipv4Options
plain_options = record { require_mask = false; allow_mask = true; normalize_subnet = true }

abbrev pub subnet_options : Ipv4Options
subnet_options = record { require_mask = true; allow_mask = true; normalize_subnet = true }
