-- ===== src/Tests/Peers.antt =====
-- The subnet of a peer next to those of the others, and a peer that is away for nine days.
use networkat_cloud_web_app.Peers.{at, format_offline_duration, get_peer_status_title}
use networkat_cloud_web_app.Prelude.{
  ◌≡◌, ◌↔◌, refl, some, List, [], ◌∷◌, All, is_ok, ok, err, true, false,
}
use networkat_cloud_web_app.Prelude.Text.{codes, trim, split_on, text_eq, lower, to_lower}
use networkat_cloud_web_app.Prelude.Decimal.{value_from, show}
use networkat_cloud_web_app.NetworkMath.Ipv4.{
  Ipv4, parse_and_validate_ipv4, parse_trimmed, split_mask, parse_octets, parse_octet, parse_prefix,
  parse_mask, ipv4_result, network_ip_of, with_prefix, dotted, net32_of, ip32_of, netmask32,
}
use networkat_cloud_web_app.PeerDetails.{
  Route, is_dup_route, other_net, validate_ipv4_cidr, as_subnet, subnet_used,
  validate_network_field,
}
use networkat_cloud_web_app.PeerDetails.Subnet.{IsSubnet, IsTaken, validate_network_field_iff}

abbrev office : List Route
office =
    record { peer = codes "a"; network = some (codes "10.0.0.9/24") }
    ∷ record { peer = codes "b"; network = some (codes "10.1.0.0/16") }
    ∷ []

abbrev office_net : Ipv4
office_net = record {
  raw = codes "10.0.0.0/24";
  ip = codes "10.0.0.0";
  prefix = some 24;
  has_mask = true;
  network_ip = codes "10.0.0.0";
  normalized = codes "10.0.0.0/24";
  was_adjusted = false;
}

validate_network_field_iff_example :
    (validate_network_field (codes "a") office (codes " 10.0.0.0/24") ≡ ok (some office_net)) ↔ (
      IsSubnet (trim (codes " 10.0.0.0/24")) office_net
      × All (λ (route : Route). ¬ IsTaken (codes "a") office_net route) office)
validate_network_field_iff_example =
    validate_network_field_iff (codes "a") office (codes " 10.0.0.0/24") office_net

-- `b` may not take the subnet of `a`, in another spelling; `a` may keep it.
network_used : validate_network_field (codes "b") office (codes "10.0.0.77/24") ≡ err subnet_used
unfolding validate_network_field is_dup_route other_net validate_ipv4_cidr as_subnet to_lower
    parse_and_validate_ipv4 parse_trimmed split_mask parse_octets parse_octet parse_prefix
    parse_mask ipv4_result network_ip_of with_prefix dotted net32_of ip32_of netmask32 trim split_on
    text_eq value_from show lower
network_used = refl

network_free : is_ok (validate_network_field (codes "a") office (codes " 10.0.0.0/24")) ≡ true
unfolding validate_network_field is_dup_route other_net validate_ipv4_cidr as_subnet to_lower
    parse_and_validate_ipv4 parse_trimmed split_mask parse_octets parse_octet parse_prefix
    parse_mask ipv4_result network_ip_of with_prefix dotted net32_of ip32_of netmask32 trim split_on
    text_eq value_from show lower
network_free = refl

nine_days :
    get_peer_status_title 900000000 (record { is_online = false; last_seen = at 100000000 })
    ≡ codes "Offline for 9d"
unfolding get_peer_status_title format_offline_duration show
nine_days = refl
