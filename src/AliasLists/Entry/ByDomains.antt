-- ===== src/AliasLists/Entry/ByDomains.antt =====
-- The validator of an entry, by way of that of the firewall page at records that have domains.
use networkat_cloud_web_app.Prelude.{
  ◌≡◌, refl, true, false, Option, some, List, [], ◌∷◌, map, is_nil, all, arith, Bool-cases,
  Option-cases, Result-cases, inl, inr, drop,
}
use networkat_cloud_web_app.Prelude.Text.{Text, is_space, trim, to_lower}
use networkat_cloud_web_app.Prelude.Text.Laws.{NoSpace, trim-NoSpace}
use networkat_cloud_web_app.NetworkMath.Ipv4.{parse_and_validate_ipv4, plain_options}
use networkat_cloud_web_app.NetworkMath.Dns.{validate_hostname}
use networkat_cloud_web_app.Firewall.AliasEntry
use networkat_cloud_web_app.Firewall.AliasEntry.{
  Upstream, local_domains, check_local_domain, as_hostname, check_digit_first, check_letter_first,
  check_normal,
}
use networkat_cloud_web_app.AliasLists.Resolver.{is_zone_char, span_zone, match_upstream}
use networkat_cloud_web_app.AliasLists.Entry.{
  get_local_forwarding_domains, is_hostname_matching_local_domain, hostname_result, digit_entry,
  letter_entry, normal_entry, validate_alias_entry,
}

span_zone-zone : (s : Text) → all is_zone_char (span_zone s).0 ≡ true
unfolding span_zone
span_zone-zone [] = refl
span_zone-zone (c ∷ s) = ground (arith, span_zone-zone s)

match_upstream-zone :
    (u zone ip : Text)
    → match_upstream u ≡ some (zone, ip)
    → (all is_zone_char zone ≡ true) × (is_nil zone ≡ false)
unfolding match_upstream
match_upstream-zone u zone ip h = ground (arith, span_zone-zone (drop 2 u))

lower-NoSpace : (s : Text) → all is_zone_char s ≡ true → NoSpace (to_lower s)
unfolding to_lower is_space
lower-NoSpace [] h = refl
lower-NoSpace (c ∷ s) h = ground (arith, lower-NoSpace s)

to_lower_idem : (s : Text) → to_lower (to_lower s) ≡ to_lower s
unfolding to_lower
to_lower_idem [] = refl
to_lower_idem (c ∷ s) = ground (arith, to_lower_idem s)

is_nil-to_lower : (s : Text) → is_nil (to_lower s) ≡ is_nil s
unfolding to_lower
is_nil-to_lower [] = refl
is_nil-to_lower (c ∷ s) = refl

-- Records with domains, for the validator of the firewall page to read.
abbrev pub as_upstreams : List Text → List Upstream
as_upstreams = map (λ d. record { domain = some d })

local_domains-as_upstreams :
    (us : List Text)
    → local_domains (as_upstreams (get_local_forwarding_domains us))
      ≡ get_local_forwarding_domains us
unfolding local_domains get_local_forwarding_domains
local_domains-as_upstreams [] = refl
local_domains-as_upstreams (u ∷ us) = elim (Option-cases (match_upstream u)) [
  | inl other ↦ rw (get_local_forwarding_domains, other) (local_domains-as_upstreams us)
  | inr ((zone, ip), read) ↦
      let (chars, full) = match_upstream-zone u zone ip read in
      rw
        (
          get_local_forwarding_domains,
          read,
          local_domains,
          trim-NoSpace (to_lower zone) (lower-NoSpace zone chars),
          is_nil-to_lower zone,
          full,
          to_lower_idem zone,
          local_domains-as_upstreams us,
        )
        refl
]

config_of : List Text → Option (List Upstream)
config_of us = some (as_upstreams (get_local_forwarding_domains us))

is_nil-map : (ds : List Text) → is_nil (as_upstreams ds) ≡ is_nil ds
is_nil-map [] = refl
is_nil-map (d ∷ ds) = refl

local_domain-agrees :
    (us : List Text) (t : Text)
    → is_hostname_matching_local_domain us t ≡ check_local_domain (config_of us) t
unfolding is_hostname_matching_local_domain check_local_domain config_of
local_domain-agrees us t =
    rw (local_domains-as_upstreams us, is_nil-map (get_local_forwarding_domains us))
      (elim (Bool-cases (is_nil (get_local_forwarding_domains us))) [
        | inl empty ↦ rw empty refl
        | inr full ↦ rw full refl
      ])

hostname-agrees : (us : List Text) (t : Text) → hostname_result us t ≡ as_hostname (config_of us) t
unfolding as_hostname
hostname-agrees us t = rw (local_domain-agrees us t) refl

digit-agrees : (us : List Text) (t : Text) → digit_entry us t ≡ check_digit_first (config_of us) t
unfolding digit_entry check_digit_first
digit-agrees us t = elim (Result-cases (parse_and_validate_ipv4 plain_options (some t))) [
  | inl (r, parsed) ↦ rw (digit_entry, check_digit_first, parsed) refl
  | inr (e, failed) ↦ elim (Result-cases (validate_hostname (some t))) [
    | inl (h, named) ↦ rw (digit_entry, check_digit_first, failed, named) (hostname-agrees us t)
    | inr (e', unnamed) ↦ rw (digit_entry, check_digit_first, failed, unnamed) refl
  ]
]

letter-agrees :
    (us : List Text) (t : Text) → letter_entry us t ≡ check_letter_first (config_of us) t
unfolding letter_entry check_letter_first
letter-agrees us t = elim (Result-cases (validate_hostname (some t))) [
  | inl (h, named) ↦ rw (letter_entry, check_letter_first, named) (hostname-agrees us t)
  | inr (e, unnamed) ↦ rw (letter_entry, check_letter_first, unnamed) refl
]

normal-agrees : (us : List Text) (t : Text) → normal_entry us t ≡ check_normal (config_of us) t
unfolding normal_entry check_normal
normal-agrees us [] = refl
normal-agrees us (c ∷ s) = rw (digit-agrees us (c ∷ s), letter-agrees us (c ∷ s)) refl

-- The validator of this page answers like the function that the firewall page has, applied to records
-- that have the zones of the upstream servers as their domains.
pub validate_alias_entry-by_domains :
    (us : List Text) (type value : Text)
    → validate_alias_entry us type value
      ≡ AliasEntry.validate_alias_entry
          (some (as_upstreams (get_local_forwarding_domains us)))
          type
          value
unfolding validate_alias_entry AliasEntry.validate_alias_entry config_of
validate_alias_entry-by_domains us type value = rw (normal-agrees us (trim value)) refl
