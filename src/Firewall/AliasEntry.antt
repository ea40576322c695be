-- ===== src/Firewall/AliasEntry.antt =====
-- client/static/js/firewall.js, `validateAliasName`, `validateAliasComment`, `validateAliasEntry` and
-- `isHostnameMatchingLocalDomain`: one entry of an address list alias. network_math.js is loaded
-- before, so `window.validateHostname` is there.
pub mod Kinds
pub mod Stable
use networkat_cloud_web_app.Prelude.{
  ℕ, ◌≡◌, Bool, true, false, not, ◌&&◌, ◌||◌, Option, none, some, List, [], ◌∷◌, ◌++◌, map, ltb,
  leb, ◌==◌, if◌then◌else◌, length, get_or, is_nil, all, any, keep, drop, Result, ok, err, ◌>>=◌,
  ◌>>◌, reject,
}
use networkat_cloud_web_app.Prelude.Text.{
  Text, codes, text_eq, is_digit, is_letter, is_alnum, trim, starts_with, ends_with, split_on,
  to_lower,
}
use networkat_cloud_web_app.Prelude.Decimal.{is_digits}
use networkat_cloud_web_app.NetworkMath.Ipv4.{
  Ipv4Error, Ipv4, parse_and_validate_ipv4, plain_options,
}
use networkat_cloud_web_app.NetworkMath.Dns.{DnsError, label_regex, validate_hostname}

-- An upstream server; a missing domain is `none`.
pub record Upstream : Type 0 where
  pub domain : Option Text

pub data EntryError : Type 0 where
  required too_long enter_domain invalid_domain : EntryError
  no_local_resolver not_local invalid_format : EntryError
  not_ipv4 : Ipv4Error → EntryError
  bad_hostname : DnsError → EntryError

pub data EntryType : Type 0 where
  domain_entry address_entry hostname_entry : EntryType

-- The domains that are not blank, trimmed and in lower case.
unfoldable pub local_domains : List Upstream → List Text
local_domains [] = []
local_domains (u ∷ us) =
    let rest = local_domains us in
    elim u.domain [
      | none ↦ rest
      | some d ↦ (if is_nil (trim d) then rest else to_lower (trim d) ∷ rest)
    ]

-- `lowerHost === d || lowerHost.endsWith('.' + d)`
abbrev pub is_under : Text → Text → Bool
is_under lower_host d = text_eq lower_host d || ends_with (b'.' ∷ d) lower_host

-- `cachedResolverConfig` is `none` before it has been fetched; `upstream_dns` may be empty.
unfoldable pub check_local_domain : Option (List Upstream) → Text → Result EntryError (Unit {0})
check_local_domain none hostname = err no_local_resolver
check_local_domain (some upstream_dns) hostname =
    let domains = local_domains upstream_dns in
    if is_nil upstream_dns || is_nil domains
    then err no_local_resolver
    else if not (any (is_under (to_lower hostname)) domains)
    then err not_local
    else ok tt

unfoldable pub validate_alias_name : Text → Result EntryError (Unit {0})
validate_alias_name name = do
  reject (is_nil name || is_nil (trim name)) required
  reject (ltb 200 (length (trim name))) too_long
  ok tt

unfoldable pub validate_alias_comment : Text → Bool
validate_alias_comment comment = not (ltb 200 (length comment))

-- `\d{1,3}`
abbrev pub is_short_digits : Text → Bool
is_short_digits s = is_digits s && leb (length s) 3

-- `/^(\d{1,3}\.){3}\d{1,3}(\/\d+)?$/`
unfoldable pub looks_like_ipv4 : Text → Bool
looks_like_ipv4 s =
    let halves = split_on b'/' s in
    let parts = split_on b'.' (get_or halves 0 []) in
    (length halves == 1 || length halves == 2 && is_digits (get_or halves 1 []))
    && length parts == 4
    && all is_short_digits parts

-- The labels before the last one match, and the last is `[a-zA-Z0-9]{2,}`.
unfoldable pub is_labels_and_tld : List Text → Bool
is_labels_and_tld [] = false
is_labels_and_tld (w ∷ []) = all is_alnum w && leb 2 (length w)
is_labels_and_tld (w ∷ v ∷ ws) = label_regex w && is_labels_and_tld (v ∷ ws)

-- `/^(\*\.)?([a-zA-Z0-9]([a-zA-Z0-9-]{0,61}[a-zA-Z0-9])?\.)+[a-zA-Z0-9]{2,}$/`
unfoldable pub domain_regex : Text → Bool
domain_regex s =
    let parts = split_on b'.' (if starts_with (codes "*.") s then drop 2 s else s) in
    ltb 1 (length parts) && is_labels_and_tld parts

unfoldable pub check_web_domain : Text → Result EntryError (EntryType × Text)
check_web_domain trimmed = do
  reject (text_eq trimmed (codes "*") || text_eq trimmed (codes "*.")) invalid_domain
  reject (looks_like_ipv4 trimmed) enter_domain
  reject (not (domain_regex trimmed)) invalid_domain
  ok (domain_entry, trimmed)

unfoldable pub as_hostname : Option (List Upstream) → Text → Result EntryError (EntryType × Text)
as_hostname config trimmed = do check_local_domain config trimmed; ok (hostname_entry, trimmed)

-- The branch for a digit: an address, or else a hostname; the address's error if it is neither.
unfoldable pub check_digit_first :
    Option (List Upstream) → Text → Result EntryError (EntryType × Text)
check_digit_first config trimmed = elim (parse_and_validate_ipv4 plain_options (some trimmed)) [
  | ok r ↦ ok (address_entry, r.normalized)
  | err e ↦ elim (validate_hostname (some trimmed)) [
    | ok _ ↦ as_hostname config trimmed
    | err _ ↦ err (not_ipv4 e)
  ]
]

unfoldable pub check_letter_first :
    Option (List Upstream) → Text → Result EntryError (EntryType × Text)
check_letter_first config trimmed = elim (validate_hostname (some trimmed)) [
  | ok _ ↦ as_hostname config trimmed
  | err e ↦ err (bad_hostname e)
]

unfoldable pub check_normal : Option (List Upstream) → Text → Result EntryError (EntryType × Text)
check_normal config [] = err required
check_normal config (c ∷ s) =
    if is_digit c
    then check_digit_first config (c ∷ s)
    else if is_letter c
    then check_letter_first config (c ∷ s)
    else err invalid_format

unfoldable pub validate_alias_entry :
    Option (List Upstream) → Text → Text → Result EntryError (EntryType × Text)
validate_alias_entry config type value =
    let trimmed = trim value in
    if is_nil value || is_nil trimmed
    then err required
    else if text_eq type (codes "web_domain")
    then check_web_domain trimmed
    else check_normal config trimmed
