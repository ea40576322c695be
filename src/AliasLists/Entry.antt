-- ===== src/AliasLists/Entry.antt =====
-- client/static/js/aliases.js, the page's own validators of an entry: `ip_address_validator`,
-- `getLocalForwardingDomains`, `isHostnameMatchingLocalDomain`, `hostname_validator` and
-- `validateAliasEntry`. The checks for a web domain are those of the firewall page, word for word.
pub mod Agrees
pub mod ByDomains
pub mod Zones
use networkat_cloud_web_app.Prelude.{
  ℕ, Bool, true, false, not, ◌&&◌, ◌||◌, Option, none, some, List, [], ◌∷◌, ltb, leb, ◌==◌,
  if◌then◌else◌, length, get_or, is_nil, all, any, Result, ok, err, is_ok, ◌>>◌,
}
use networkat_cloud_web_app.Prelude.Text.{
  Text, codes, text_eq, is_digit, is_letter, trim, includes, starts_in, split_on, to_lower,
}
use networkat_cloud_web_app.Prelude.Decimal.{parse_int, is_digits}
use networkat_cloud_web_app.NetworkMath.Ipv4.{parse_and_validate_ipv4, plain_options}
use networkat_cloud_web_app.NetworkMath.Dns.{validate_hostname}
use networkat_cloud_web_app.Firewall.AliasEntry.{
  EntryError, required, no_local_resolver, not_local, invalid_format, not_ipv4, bad_hostname,
  EntryType, address_entry, hostname_entry, is_under, is_short_digits, check_web_domain,
}
use networkat_cloud_web_app.AliasLists.Resolver.{match_upstream}

-- `trimmed.match(/^(\d{1,3})\.(\d{1,3})\.(\d{1,3})\.(\d{1,3})(?:\/(\d{1,2}))?$/)`, its groups: the
-- octets, and the mask or `undefined`
unfoldable pub cidr_match : Text → Option (List Text × Option Text)
cidr_match s =
    let halves = split_on b'/' s in
    let octets = split_on b'.' (get_or halves 0 []) in
    let mask = get_or halves 1 [] in
    if not (length octets == 4) || not (all is_short_digits octets)
    then none
    else if length halves == 1
    then some (octets, none)
    else if length halves == 2 && is_digits mask && leb (length mask) 2
    then some (octets, some mask)
    else none

-- A number without a leading zero that is at most `limit`.
unfoldable pub is_number_to : ℕ → Text → Bool
is_number_to limit s = not (ltb 1 (length s) && starts_in b'0' s) && not (ltb limit (parse_int s))

abbrev mask_fits : Option Text → Bool
mask_fits none = true
mask_fits (some mask) = is_number_to 32 mask

unfoldable pub ip_address_validator : Text → Bool
ip_address_validator val =
    if is_nil val || includes b':' (trim val) then false else elim (cidr_match (trim val)) [
      | none ↦ false
      | some (octets, mask) ↦ all (is_number_to 255) octets && mask_fits mask
    ]

unfoldable pub get_local_forwarding_domains : List Text → List Text
get_local_forwarding_domains [] = []
get_local_forwarding_domains (upstream ∷ upstreams) =
    let rest = get_local_forwarding_domains upstreams in
    elim (match_upstream upstream) [ none ↦ rest | some (zone, _) ↦ to_lower zone ∷ rest ]

unfoldable pub is_hostname_matching_local_domain : List Text → Text → Result EntryError (Unit {0})
is_hostname_matching_local_domain upstreams trimmed =
    let local_domains = get_local_forwarding_domains upstreams in
    if is_nil local_domains
    then err no_local_resolver
    else if not (any (is_under (to_lower trimmed)) local_domains)
    then err not_local
    else ok tt

unfoldable pub hostname_validator : Text → Bool
hostname_validator val = if is_nil val then false else is_ok (validate_hostname (some (trim val)))

abbrev pub hostname_result : List Text → Text → Result EntryError (EntryType × Text)
hostname_result upstreams trimmed =
    is_hostname_matching_local_domain upstreams trimmed >> ok (hostname_entry, trimmed)

-- The branch for a first digit.
unfoldable pub digit_entry : List Text → Text → Result EntryError (EntryType × Text)
digit_entry upstreams trimmed = elim (parse_and_validate_ipv4 plain_options (some trimmed)) [
  | ok r ↦ ok (address_entry, r.normalized)
  | err e ↦ elim (validate_hostname (some trimmed)) [
    | ok _ ↦ hostname_result upstreams trimmed
    | err _ ↦ err (not_ipv4 e)
  ]
]

-- The branch for a first letter.
unfoldable pub letter_entry : List Text → Text → Result EntryError (EntryType × Text)
letter_entry upstreams trimmed = elim (validate_hostname (some trimmed)) [
  | ok _ ↦ hostname_result upstreams trimmed
  | err e ↦ err (bad_hostname e)
]

unfoldable pub normal_entry : List Text → Text → Result EntryError (EntryType × Text)
normal_entry upstreams [] = err required
normal_entry upstreams (c ∷ s) =
    if is_digit c
    then digit_entry upstreams (c ∷ s)
    else if is_letter c
    then letter_entry upstreams (c ∷ s)
    else err invalid_format

unfoldable pub validate_alias_entry : List Text → Text → Text → Result EntryError (EntryType × Text)
validate_alias_entry upstreams type value =
    let trimmed = trim value in
    if is_nil value || is_nil trimmed
    then err required
    else if text_eq type (codes "web_domain")
    then check_web_domain trimmed
    else normal_entry upstreams trimmed
