-- ===== src/AliasLists/Resolver.antt =====
-- client/static/js/aliases.js, the resolver's settings: `validateDnsDomain`, `validateDnsResolvers`,
-- `populateResolverModal` and `submitResolverConfig`. An upstream server for one zone is the text
-- `[/zone/]address`.
pub mod Address
pub mod Zones
pub mod Reopen
use networkat_cloud_web_app.Prelude.{
  ℕ, Bool, true, false, not, ◌&&◌, ◌||◌, Option, none, some, List, [], ◌∷◌, ◌++◌, ltb, ◌==◌,
  if◌then◌else◌, length, is_nil, all, any, drop, Result, ok, err, ◌>>◌, reject,
}
use networkat_cloud_web_app.Prelude.Text.{
  Text, codes, is_alnum, trim, includes, starts_with, starts_in, split_on,
}
use networkat_cloud_web_app.Prelude.Decimal.{parse_int, is_digits}
use networkat_cloud_web_app.NetworkMath.Dns.{label_regex}

-- `[a-zA-Z0-9._-]`
abbrev pub is_zone_char : ℕ → Bool
is_zone_char c = is_alnum c || c == b'.' || c == b'_' || c == b'-'

-- A character that `.` does not match.
abbrev pub is_line_end : ℕ → Bool
is_line_end c = c == 10 || c == 13 || c == 0x2028 || c == 0x2029

-- The longest beginning of zone characters, and the rest.
unfoldable pub span_zone : Text → Text × Text
span_zone [] = ([], [])
span_zone (c ∷ s) =
    let (zone, rest) = span_zone s in if is_zone_char c then (c ∷ zone, rest) else ([], c ∷ s)

-- `upstream.match(/^\[\/([a-zA-Z0-9._-]+)\/\](.+)$/)`, its two groups
unfoldable pub match_upstream : Text → Option (Text × Text)
match_upstream upstream =
    let (zone, rest) = span_zone (drop 2 upstream) in
    let ip = drop 2 rest in
    if not (starts_with (codes "[/") upstream)
      || is_nil zone
      || not (starts_with (codes "/]") rest)
      || is_nil ip
      || any is_line_end ip
    then none
    else some (zone, ip)

pub data RowError : Type 0 where
  required wildcard invalid_domain invalid_ip : RowError

-- `/^([a-zA-Z0-9]([a-zA-Z0-9-]{0,61}[a-zA-Z0-9])?\.)+[a-zA-Z0-9]([a-zA-Z0-9-]{0,61}[a-zA-Z0-9])?$/`
unfoldable pub zone_regex : Text → Bool
zone_regex s = ltb 1 (length (split_on b'.' s)) && all label_regex (split_on b'.' s)

unfoldable pub validate_dns_domain : Text → Result RowError (Unit {0})
validate_dns_domain domain = do
  let trimmed = trim domain
  reject (is_nil domain || is_nil trimmed) required
  reject (includes b'*' trimmed) wildcard
  reject (ltb (length (split_on b'.' trimmed)) 2) invalid_domain
  reject (not (zone_regex trimmed)) invalid_domain
  ok tt

-- The loop over the octets.
unfoldable pub check_octets : List Text → Result RowError (Unit {0})
check_octets [] = ok tt
check_octets (octet ∷ octets) = do
  reject (ltb 1 (length octet) && starts_in b'0' octet) invalid_ip
  reject (ltb 255 (parse_int octet)) invalid_ip
  check_octets octets

unfoldable pub validate_dns_resolvers : Text → Result RowError (Unit {0})
validate_dns_resolvers dns_ip = do
  let trimmed = trim dns_ip
  reject (is_nil dns_ip || is_nil trimmed) required
  reject (includes b'/' trimmed || includes b':' trimmed) invalid_ip
  let octets = split_on b'.' trimmed
  reject (not (length octets == 4) || not (all is_digits octets)) invalid_ip
  check_octets octets

pub record DnsRow : Type 0 where
  pub domain : Text
  pub dns_ip : Text

-- What the modal is filled with: the rows, and the upstreams that are kept aside.
pub record Filled : Type 0 where
  pub rows : List DnsRow
  pub original_upstreams : List Text

abbrev fill_with : Text → Option (Text × Text) → Filled → Filled
fill_with upstream none f = record f { original_upstreams = upstream ∷ f.original_upstreams }
fill_with upstream (some (zone, ip)) f = record f {
  rows = record { domain = zone; dns_ip = ip } ∷ f.rows;
}

unfoldable pub fill_rows : List Text → Filled
fill_rows [] = record { rows = []; original_upstreams = [] }
fill_rows (upstream ∷ upstreams) =
    fill_with upstream (match_upstream upstream) (fill_rows upstreams)

-- A modal without a row gets a blank one.
unfoldable pub populate_with : Filled → Filled
populate_with f =
    if is_nil f.rows then record f { rows = record { domain = []; dns_ip = [] } ∷ [] } else f

unfoldable pub populate_resolver_modal : List Text → Filled
populate_resolver_modal upstreams = populate_with (fill_rows upstreams)

-- What one row gives: nothing, an upstream, or a mark.
pub data RowResult : Type 0 where
  skipped : RowResult
  upstream : Text → RowResult
  domain_error ip_error : RowError → RowResult

-- `several` says that there is more than one row.
unfoldable pub check_dns_row : Bool → DnsRow → RowResult
check_dns_row several row =
    let domain = trim row.domain in
    let dns_ip = trim row.dns_ip in
    if is_nil domain && is_nil dns_ip && several
    then skipped
    else if is_nil domain
    then domain_error required
    else elim (validate_dns_domain domain) [
      | err e ↦ domain_error e
      | ok _ ↦ if is_nil dns_ip then ip_error required else elim (validate_dns_resolvers dns_ip) [
        | err e ↦ ip_error e
        | ok _ ↦ upstream (codes "[/" ++ (domain ++ (codes "/]" ++ dns_ip)))
      ]
    ]

abbrev add_result : RowResult → Option (List Text) → Option (List Text)
add_result skipped rest = rest
add_result (upstream u) none = none
add_result (upstream u) (some us) = some (u ∷ us)
add_result (domain_error e) rest = none
add_result (ip_error e) rest = none

-- The loop over the rows: the upstreams of those that are filled, or `none` if any has a mark.
unfoldable pub check_dns_rows : Bool → List DnsRow → Option (List Text)
check_dns_rows several [] = some []
check_dns_rows several (row ∷ rows) =
    add_result (check_dns_row several row) (check_dns_rows several rows)

-- The configuration as it was fetched; a field that is missing is `none`.
pub record CachedConfig : Type 0 where
  pub upstream_dns : Option (List Text)
  pub bootstrap_dns : Option (List Text)
  pub all_servers : Option Bool
  pub fastest_addr : Option Bool

pub record ResolverConfig : Type 0 where
  pub upstream_dns : List Text
  pub bootstrap_dns : List Text
  pub all_servers : Bool
  pub fastest_addr : Bool

-- `(config && config.field) || fallback`
abbrev pub field_or {ℓ} : {A : Type ℓ} → Option CachedConfig → (CachedConfig → Option A) → A → A
field_or none field fallback = fallback
field_or (some c) field fallback = elim (field c) [ none ↦ fallback | some a ↦ a ]

pub record ResolverPage : Type 0 where
  pub cached_resolver_config : Option CachedConfig
  pub original_upstreams : List Text
  pub rows : List DnsRow
  pub modal_active : Bool

unfoldable pub open_resolver_modal : ResolverPage → ResolverPage
open_resolver_modal p =
    let f = populate_resolver_modal (field_or p.cached_resolver_config (λ c. c.upstream_dns) []) in
    record p { original_upstreams = f.original_upstreams; rows = f.rows; modal_active = true }

-- `fetched` is what a fetch of the configuration gives, where none was fetched before; a fetch that
-- fails leaves it as it was, and the modal is filled all the same.
unfoldable pub open_resolver_config_modal :
    Bool → Bool → Option CachedConfig → ResolverPage → ResolverPage
open_resolver_config_modal is_online may_use fetched p =
    let config : Option CachedConfig = elim p.cached_resolver_config [
      | none ↦ fetched
      | some c ↦ some c
    ] in
    if not is_online || not may_use
    then p
    else open_resolver_modal (record p { cached_resolver_config = config })

-- What is sent; `none` where a row has a mark.
unfoldable pub submit_resolver_config : ResolverPage → Option ResolverConfig
submit_resolver_config p = elim (check_dns_rows (ltb 1 (length p.rows)) p.rows) [
  | none ↦ none
  | some local_upstreams ↦ some (record {
    upstream_dns = p.original_upstreams ++ local_upstreams;
    bootstrap_dns = field_or p.cached_resolver_config (λ c. c.bootstrap_dns) (codes "9.9.9.9" ∷ []);
    all_servers = field_or p.cached_resolver_config (λ c. c.all_servers) false;
    fastest_addr = field_or p.cached_resolver_config (λ c. c.fastest_addr) false;
  })
]

-- The answer to the request: after a success the configuration is fetched, `none` for a fetch that
-- fails, and the modal is closed.
unfoldable pub resolver_answered : Bool → Option CachedConfig → ResolverPage → ResolverPage
resolver_answered false fetched p = p
resolver_answered true none p = record p { modal_active = false }
resolver_answered true (some c) p = record p {
  cached_resolver_config = some c;
  modal_active = false;
}
