-- ===== src/Tests/Network.antt =====
-- client/static/js/network_math.js on concrete addresses and names.
use networkat_cloud_web_app.Prelude.{ℕ, ◌≤◌, ◌≡◌, refl, ◌↔◌, true, false, some, ok, err}
use networkat_cloud_web_app.Prelude.Text.{codes, trim, split_on, text_eq}
use networkat_cloud_web_app.Prelude.Decimal.{value_from, show}
use networkat_cloud_web_app.NetworkMath.Ipv4.{
  Ipv4, mask_required, octet_leading_zero, parse_and_validate_ipv4, parse_trimmed, split_mask,
  parse_octets, parse_octet, parse_prefix, parse_mask, ipv4_result, network_ip_of, with_prefix,
  dotted, net32_of, ip32_of, netmask32, plain_options, subnet_options,
}
use networkat_cloud_web_app.NetworkMath.Ipv4.Network.{IsNetwork}
use networkat_cloud_web_app.NetworkMath.Ipv4.Octets.{address}
use networkat_cloud_web_app.NetworkMath.Ipv4.Grammar.{Parses, parse_and_validate_ipv4_iff}
use networkat_cloud_web_app.NetworkMath.Ipv4.Normal.{parse-normalized, parse-IsNetwork}
use networkat_cloud_web_app.NetworkMath.Dns.{validate_dns_name, hostname_options}
use networkat_cloud_web_app.NetworkMath.Dns.Labels.{validate_dns_name_iff, is_dns_name}

abbrev lan : Ipv4
lan = record {
  raw = codes "192.168.1.77/24";
  ip = codes "192.168.1.77";
  prefix = some 24;
  has_mask = true;
  network_ip = codes "192.168.1.0";
  normalized = codes "192.168.1.0/24";
  was_adjusted = true;
}

abbrev neighbour : Ipv4
neighbour = record lan { raw = codes "192.168.1.9/24"; ip = codes "192.168.1.9" }

lan_parses : parse_and_validate_ipv4 plain_options (some (codes " 192.168.1.77/24")) ≡ ok lan
unfolding parse_and_validate_ipv4 parse_trimmed split_mask parse_octets parse_octet parse_prefix
    parse_mask ipv4_result network_ip_of with_prefix dotted net32_of ip32_of netmask32 trim split_on
    text_eq value_from show
lan_parses = refl

neighbour_parses :
    parse_and_validate_ipv4 subnet_options (some (codes "192.168.1.9/24")) ≡ ok neighbour
unfolding parse_and_validate_ipv4 parse_trimmed split_mask parse_octets parse_octet parse_prefix
    parse_mask ipv4_result network_ip_of with_prefix dotted net32_of ip32_of netmask32 trim split_on
    text_eq value_from show
neighbour_parses = refl

no_mask : parse_and_validate_ipv4 subnet_options (some (codes "10.0.0.1")) ≡ err mask_required
unfolding parse_and_validate_ipv4 parse_trimmed split_mask parse_octets parse_octet parse_prefix
    parse_mask ipv4_result network_ip_of with_prefix dotted net32_of ip32_of netmask32 trim split_on
    text_eq value_from show
no_mask = refl

octal :
    parse_and_validate_ipv4 plain_options (some (codes "10.0.010.1"))
    ≡ err (octet_leading_zero 3 (codes "010"))
unfolding parse_and_validate_ipv4 parse_trimmed split_mask parse_octets parse_octet parse_prefix
    parse_mask ipv4_result network_ip_of with_prefix dotted net32_of ip32_of netmask32 trim split_on
    text_eq value_from show
octal = refl

parse_and_validate_ipv4_iff_example :
    (parse_and_validate_ipv4 plain_options (some (codes " 192.168.1.77/24")) ≡ ok lan)
    ↔ Parses plain_options (trim (codes " 192.168.1.77/24")) lan
parse_and_validate_ipv4_iff_example =
    parse_and_validate_ipv4_iff plain_options (codes " 192.168.1.77/24") lan

parse-normalized_example :
    parse_and_validate_ipv4 plain_options (some (codes "192.168.1.0/24"))
    ≡ ok (record lan { raw = lan.normalized; ip = lan.network_ip; was_adjusted = false })
parse-normalized_example = parse-normalized plain_options (codes " 192.168.1.77/24") lan lan_parses

parse-IsNetwork_example :
    (n m : ℕ) × (codes "192.168.1.77" ≡ address n)
    × (codes "192.168.1.0" ≡ address m)
    × (24 ≤ 32)
    × IsNetwork n 24 m
    × ((true ≡ false) ↔ (m ≡ n))
parse-IsNetwork_example =
    parse-IsNetwork plain_options (codes " 192.168.1.77/24") lan 24 refl lan_parses refl

validate_dns_name_iff_example :
    (validate_dns_name hostname_options (some (codes " vpn-1.example.com "))
      ≡ ok (codes "vpn-1.example.com"))
    ↔ ((codes "vpn-1.example.com" ≡ trim (codes " vpn-1.example.com "))
        × (is_dns_name hostname_options (trim (codes " vpn-1.example.com ")) ≡ true))
validate_dns_name_iff_example =
    validate_dns_name_iff hostname_options (codes " vpn-1.example.com ") (codes "vpn-1.example.com")
