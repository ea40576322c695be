-- ===== src/Tests/Rules.antt =====
-- The rule form's fields on concrete inputs: ports, addresses and alias references.
use networkat_cloud_web_app.Prelude.{
  arith, ◌≡◌, refl, ◌↔◌, false, some, List, [], ◌∷◌, ok, err, is_nil, All,
}
use networkat_cloud_web_app.Prelude.Text.{to_lower, codes, trim, join, split_on, text_eq}
use networkat_cloud_web_app.Prelude.Decimal.{show, value_from}
use networkat_cloud_web_app.Alias.{
  Alias, number, parts_of, resolve_alias_names_to_ids, resolve_alias_id_to_name, is_named, has_id,
  strip_alias, id_string, text_string,
}
use networkat_cloud_web_app.Alias.RoundTrip.{
  RefersTo, IsStable, plain, reference, id_to_name-names_to_ids,
}
use networkat_cloud_web_app.NetworkMath.Ipv4.{
  parse_and_validate_ipv4, parse_trimmed, split_mask, parse_octets, parse_octet, parse_prefix,
  parse_mask, ipv4_result, network_ip_of, with_prefix, dotted, net32_of, ip32_of, netmask32,
}
use networkat_cloud_web_app.Firewall.Ports.{
  validate_port_input, has_double_comma, parse_parts, parse_part, parse_single, parse_range,
  has_overlap, overlapping,
}
use networkat_cloud_web_app.Firewall.Ports.Grammar.{IsPortList, validate_port_input_iff}
use networkat_cloud_web_app.Firewall.Addresses.{
  check_parts, check_addresses, validate_address_input, duplicate,
}
use networkat_cloud_web_app.Firewall.Addresses.Distinct.{AreNormal, IsDistinct, check_addresses_iff}
use networkat_cloud_web_app.Firewall.Addresses.Stable.{Accepts, validate_address_input_iff}

abbrev office : Alias
office = record {
  id = number 7;
  name = some (codes "office");
  slug = some (codes "office-1");
  type = codes "normal";
}

abbrev lists : List Alias
lists = office ∷ []

ports_overlap : validate_port_input (codes "80,443,400-500") ≡ err overlapping
unfolding validate_port_input has_double_comma parse_parts parse_part parse_single parse_range
    has_overlap trim split_on value_from
ports_overlap = refl

validate_port_input_iff_example :
    (validate_port_input (codes "80,443,1000-2000") ≡ ok tt) ↔ IsPortList (codes "80,443,1000-2000")
unfolding trim
validate_port_input_iff_example = validate_port_input_iff (codes "80,443,1000-2000") refl

same_network : validate_address_input lists (codes "10.0.0.1/8, 10.9.9.9/8") ≡ err duplicate
unfolding validate_address_input parts_of check_parts check_addresses to_lower join
    parse_and_validate_ipv4 parse_trimmed split_mask parse_octets parse_octet parse_prefix
    parse_mask ipv4_result network_ip_of with_prefix dotted net32_of ip32_of netmask32 trim split_on
    text_eq value_from show
same_network = refl

fields_normal :
    validate_address_input lists (codes " 10.0.0.1/8,1.1.1.1 ")
    ≡ ok (some (codes "10.0.0.0/8, 1.1.1.1"))
unfolding validate_address_input parts_of check_parts check_addresses to_lower join
    parse_and_validate_ipv4 parse_trimmed split_mask parse_octets parse_octet parse_prefix
    parse_mask ipv4_result network_ip_of with_prefix dotted net32_of ip32_of netmask32 trim split_on
    text_eq value_from show
fields_normal = refl

check_addresses_iff_example :
    (check_addresses [] (codes "10.0.0.1/8" ∷ []) ≡ ok (codes "10.0.0.0/8" ∷ [])) ↔ (
      AreNormal (codes "10.0.0.1/8" ∷ []) (codes "10.0.0.0/8" ∷ [])
      × IsDistinct (codes "10.0.0.0/8" ∷ []))
check_addresses_iff_example =
    check_addresses_iff (codes "10.0.0.1/8" ∷ []) (codes "10.0.0.0/8" ∷ [])

validate_address_input_iff_example :
    (validate_address_input lists (codes "@office") ≡ ok (some (codes "@office"))) ↔ (
      (is_nil (parts_of (trim (codes "@office"))) ≡ false)
      × Accepts lists (parts_of (trim (codes "@office"))) (codes "@office"))
validate_address_input_iff_example =
    validate_address_input_iff lists (codes "@office") (codes "@office")

office_refers : RefersTo lists (codes "office") office 7
unfolding is_named has_id strip_alias id_string text_string text_eq show
office_refers = record {
  full = refl;
  plain = refl;
  named = refl;
  numbered = refl;
  saved = omega arith;
  by_name = refl;
  by_id = refl;
}

IsStable-parts : All (IsStable lists) (parts_of (codes "@office,1.1.1.1"))
unfolding parts_of split_on trim
IsStable-parts = (reference office 7 office_refers, (plain refl, tt))

id_to_name-names_to_ids_example :
    resolve_alias_id_to_name lists (resolve_alias_names_to_ids lists (codes "@office,1.1.1.1"))
    ≡ join (codes ", ") (parts_of (codes "@office,1.1.1.1"))
id_to_name-names_to_ids_example =
    id_to_name-names_to_ids lists (codes "@office,1.1.1.1") IsStable-parts
