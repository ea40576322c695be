-- ===== src/PeerDetails.antt =====
-- client/static/js/peer_details.js, `validateIpv4Cidr`, `validateNameField` and
-- `validateNetworkField`: the name and the subnet of a peer, against the other peers and routes.
pub mod Subnet
pub mod Names
use networkat_cloud_web_app.Prelude.{
  Bool, false, true, not, ◌&&◌, ◌||◌, Option, none, some, List, if◌then◌else◌, is_nil, any, Result,
  ok, err, ◌>>=◌, ◌>>◌, reject,
}
use networkat_cloud_web_app.Prelude.Text.{Text, text_eq, trim, to_lower}
use networkat_cloud_web_app.NetworkMath.Ipv4.{
  Ipv4, Ipv4Error, parse_and_validate_ipv4, subnet_options,
}
use networkat_cloud_web_app.NetworkMath.Dns.{DnsError, DnsOptions, validate_dns_name}

pub data FieldError : Type 0 where
  subnet_required subnet_used name_required name_used : FieldError
  not_subnet : Ipv4Error → FieldError
  not_name : DnsError → FieldError

-- An entry of `otherRoutes`; a route without a network has `none`.
pub record Route : Type 0 where
  pub peer : Text
  pub network : Option Text

-- An entry of `otherPeers`; `p.name || ''` is the name.
pub record Peer : Type 0 where
  pub id : Text
  pub name : Text

unfoldable pub as_subnet : Result Ipv4Error Ipv4 → Result FieldError Ipv4
as_subnet (ok r) = ok r
as_subnet (err e) = err (not_subnet e)

unfoldable pub validate_ipv4_cidr : Text → Result FieldError Ipv4
validate_ipv4_cidr cidr =
    if is_nil cidr || is_nil (trim cidr)
    then err subnet_required
    else as_subnet (parse_and_validate_ipv4 subnet_options (some cidr))

-- What a route's network is compared by.
unfoldable pub other_net : Text → Text
other_net network = elim (validate_ipv4_cidr network) [
  | ok r ↦ to_lower r.normalized
  | err _ ↦ to_lower (trim network)
]

-- The test of the search for a route with the same subnet.
unfoldable pub is_dup_route : Text → Text → Route → Bool
is_dup_route peer_id target_net r = elim r.network [
  | none ↦ false
  | some network ↦
      if text_eq r.peer peer_id || is_nil network
      then false
      else text_eq (other_net network) target_net
]

-- `ok none` is the empty `normalized` of a blank field.
unfoldable pub validate_network_field : Text → List Route → Text → Result FieldError (Option Ipv4)
validate_network_field peer_id other_routes network =
    let trimmed = trim network in
    if is_nil network || is_nil trimmed then ok none else (do
      cidr_res ← validate_ipv4_cidr trimmed
      reject (any (is_dup_route peer_id (to_lower cidr_res.normalized)) other_routes) subnet_used
      ok (some cidr_res))

abbrev pub name_options : DnsOptions
name_options = record { allow_dots = false; max_length = 63 }

unfoldable pub as_name : Result DnsError Text → Result FieldError Text
as_name (ok s) = ok s
as_name (err e) = err (not_name e)

-- The test of the search for a peer with the same name.
unfoldable pub is_dup_name : Text → Text → Peer → Bool
is_dup_name peer_id trimmed p =
    not (text_eq p.id peer_id) && text_eq (to_lower (trim p.name)) (to_lower trimmed)

unfoldable pub validate_name_field : Text → List Peer → Text → Result FieldError Text
validate_name_field peer_id other_peers name =
    let trimmed = trim name in
    if is_nil name || is_nil trimmed then err name_required else (do
      _ ← as_name (validate_dns_name name_options (some trimmed))
      reject (any (is_dup_name peer_id trimmed) other_peers) name_used
      ok trimmed)
