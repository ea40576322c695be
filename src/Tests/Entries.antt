-- ===== src/Tests/Entries.antt =====
-- Entries of address list aliases.
use networkat_cloud_web_app.Prelude.{◌≡◌, refl, Option, none, some, List, [], ◌∷◌, ok, err}
use networkat_cloud_web_app.Prelude.Text.{codes, trim, split_on, text_eq, join, to_lower}
use networkat_cloud_web_app.Prelude.Decimal.{value_from, show}
use networkat_cloud_web_app.NetworkMath.Ipv4.{
  parse_and_validate_ipv4, parse_trimmed, split_mask, parse_octets, parse_octet, parse_prefix,
  parse_mask, ipv4_result, network_ip_of, with_prefix, dotted, net32_of, ip32_of, netmask32,
}
use networkat_cloud_web_app.NetworkMath.Dns.{
  validate_hostname, validate_dns_name, check_dotted, check_labels, check_label, label_regex,
  label_tail,
}
use networkat_cloud_web_app.Firewall.AliasEntry.{
  Upstream, address_entry, hostname_entry, enter_domain, validate_alias_entry, check_normal,
  check_digit_first, check_letter_first, check_web_domain, as_hostname, check_local_domain,
  local_domains, looks_like_ipv4, domain_regex, is_labels_and_tld,
}

abbrev resolver : Option (List Upstream)
resolver = some (record { domain = none } ∷ record { domain = some (codes " Corp.example ") } ∷ [])

address_typed :
    validate_alias_entry resolver (codes "normal") (codes " 10.1.2.3/16")
    ≡ ok (address_entry, codes "10.1.0.0/16")
unfolding validate_alias_entry check_normal check_digit_first check_letter_first check_web_domain
    as_hostname check_local_domain local_domains looks_like_ipv4 domain_regex is_labels_and_tld
    validate_hostname validate_dns_name check_dotted check_labels check_label label_regex label_tail
    parse_and_validate_ipv4 parse_trimmed split_mask parse_octets parse_octet parse_prefix
    parse_mask ipv4_result network_ip_of with_prefix dotted net32_of ip32_of netmask32 trim split_on
    text_eq join to_lower value_from show
address_typed = refl

host_typed :
    validate_alias_entry resolver (codes "normal") (codes "3d.corp.Example")
    ≡ ok (hostname_entry, codes "3d.corp.Example")
unfolding validate_alias_entry check_normal check_digit_first check_letter_first check_web_domain
    as_hostname check_local_domain local_domains looks_like_ipv4 domain_regex is_labels_and_tld
    validate_hostname validate_dns_name check_dotted check_labels check_label label_regex label_tail
    parse_and_validate_ipv4 parse_trimmed split_mask parse_octets parse_octet parse_prefix
    parse_mask ipv4_result network_ip_of with_prefix dotted net32_of ip32_of netmask32 trim split_on
    text_eq join to_lower value_from show
host_typed = refl

no_address :
    validate_alias_entry resolver (codes "web_domain") (codes "10.1.2.30") ≡ err enter_domain
unfolding validate_alias_entry check_normal check_digit_first check_letter_first check_web_domain
    as_hostname check_local_domain local_domains looks_like_ipv4 domain_regex is_labels_and_tld
    validate_hostname validate_dns_name check_dotted check_labels check_label label_regex label_tail
    parse_and_validate_ipv4 parse_trimmed split_mask parse_octets parse_octet parse_prefix
    parse_mask ipv4_result network_ip_of with_prefix dotted net32_of ip32_of netmask32 trim split_on
    text_eq join to_lower value_from show
no_address = refl
