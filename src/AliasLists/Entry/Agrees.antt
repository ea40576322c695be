-- ===== src/AliasLists/Entry/Agrees.antt =====
-- The validators of an entry on the aliases page and on the firewall page, with the same settings of
-- the resolver.
use networkat_cloud_web_app.Prelude.{
  ◌≡◌, refl, ◌||◌, Bool, true, false, none, some, List, [], ◌∷◌, map, is_nil, any, Bool-cases,
  Result, ok, err, Result-cases, inl, inr,
}
use networkat_cloud_web_app.Prelude.Text.{Text, codes, text_eq, is_digit, is_letter, trim, to_lower}
use networkat_cloud_web_app.NetworkMath.Ipv4.{parse_and_validate_ipv4, plain_options}
use networkat_cloud_web_app.NetworkMath.Dns.{validate_hostname}
use networkat_cloud_web_app.Firewall.AliasEntry
use networkat_cloud_web_app.Firewall.AliasEntry.{
  Upstream, EntryError, no_local_resolver, not_local, required, too_long, enter_domain,
  invalid_domain, invalid_format, not_ipv4, bad_hostname, EntryType, domain_entry, address_entry,
  hostname_entry, local_domains, check_local_domain, as_hostname, check_digit_first,
  check_letter_first, check_normal, check_web_domain, is_under, looks_like_ipv4, domain_regex,
}
use networkat_cloud_web_app.AliasLists.Entry.{
  get_local_forwarding_domains, is_hostname_matching_local_domain, hostname_result, digit_entry,
  letter_entry, normal_entry, validate_alias_entry,
}
use networkat_cloud_web_app.AliasLists.Entry.Zones.{
  HasZone, InZone, is_under_iff, zones_any, zones_found,
}

-- `upstream_dns` is a list of texts, and a text has no property `domain`.
abbrev pub without_domains : List Text → List Upstream
without_domains = map (λ u. record { domain = none })

local_domains-without : (us : List Text) → local_domains (without_domains us) ≡ []
unfolding local_domains
local_domains-without [] = refl
local_domains-without (u ∷ us) = local_domains-without us

-- An answer that is not about the zones.
abbrev pub IsOther : Result EntryError (EntryType × Text) → Type 0
IsOther (ok (domain_entry, v)) = Unit
IsOther (ok (address_entry, v)) = Unit
IsOther (ok (hostname_entry, v)) = ⊥
IsOther (err not_local) = ⊥
IsOther (err no_local_resolver) = ⊥
IsOther (err required) = Unit
IsOther (err too_long) = Unit
IsOther (err enter_domain) = Unit
IsOther (err invalid_domain) = Unit
IsOther (err invalid_format) = Unit
IsOther (err (not_ipv4 e)) = Unit
IsOther (err (bad_hostname e)) = Unit

-- The answers of the aliases page and of the firewall page to a trimmed text.
pub data Agrees (us : List Text) (t : Text)
    : Result EntryError (EntryType × Text) → Result EntryError (EntryType × Text) → Type 0 where
  alike : (r : Result EntryError (EntryType × Text)) → IsOther r → Agrees us t r r
  in_zone : InZone us t → Agrees us t (ok (hostname_entry, t)) (err no_local_resolver)
  out_of_zones : HasZone us → ¬ InZone us t → Agrees us t (err not_local) (err no_local_resolver)
  no_zones : ¬ HasZone us → Agrees us t (err no_local_resolver) (err no_local_resolver)

or_true : (b : Bool) → (b || true) ≡ true
or_true true = refl
or_true false = refl

as_hostname-without :
    (us : List Text) (t : Text) → as_hostname (some (without_domains us)) t ≡ err no_local_resolver
unfolding as_hostname check_local_domain
as_hostname-without us t =
    rw (check_local_domain, local_domains-without us, or_true (is_nil (without_domains us))) refl

hostname-Agrees :
    (us : List Text) (t : Text)
    → Agrees us t (hostname_result us t) (as_hostname (some (without_domains us)) t)
unfolding is_hostname_matching_local_domain
hostname-Agrees us t =
    let zones = get_local_forwarding_domains us in
    rw (as_hostname-without us t) (elim (Bool-cases (is_nil zones)) [
      | inl empty ↦
          rw (is_hostname_matching_local_domain, empty)
            (no_zones (λ (d, z). no_zone zones empty (zones_any (λ e. true) z refl)))
      | inr full ↦ elim (Bool-cases (any (is_under (to_lower t)) zones)) [
        | inl local ↦
            let (d, z, under) = zones_found (is_under (to_lower t)) us local in
            rw (is_hostname_matching_local_domain, full, local)
              (in_zone (d, z, (is_under_iff (to_lower t) d).0 under))
        | inr elsewhere ↦
            let (d, z, _) = zones_found (λ e. true) us (some_zone zones full) in
            rw (is_hostname_matching_local_domain, full, elsewhere)
              (out_of_zones (d, z)
                (λ (d, z, under).
                  (let found =
                      zones_any (is_under (to_lower t)) z ((is_under_iff (to_lower t) d).1 under) in
                    absurd cc)))
      ]
    ])
  where
    some_zone : (ds : List Text) → is_nil ds ≡ false → any (λ (e : Text). true) ds ≡ true
    some_zone [] h = cc
    some_zone (d ∷ ds) h = refl

    no_zone : (ds : List Text) → is_nil ds ≡ true → ¬ (any (λ (e : Text). true) ds ≡ true)
    no_zone [] h = λ e. cc
    no_zone (d ∷ ds) h = cc

web_domain-Agrees :
    (us : List Text) (t : Text) → Agrees us t (check_web_domain t) (check_web_domain t)
unfolding check_web_domain
web_domain-Agrees us t = elim (Bool-cases (text_eq t (codes "*") || text_eq t (codes "*."))) [
  | inl star ↦ rw (check_web_domain, star) (alike (err invalid_domain) tt)
  | inr other ↦ elim (Bool-cases (looks_like_ipv4 t)) [
    | inl address ↦ rw (check_web_domain, other, address) (alike (err enter_domain) tt)
    | inr name ↦ elim (Bool-cases (domain_regex t)) [
      | inl good ↦ rw (check_web_domain, other, name, good) (alike (ok (domain_entry, t)) tt)
      | inr bad ↦ rw (check_web_domain, other, name, bad) (alike (err invalid_domain) tt)
    ]
  ]
]

digit-Agrees :
    (us : List Text) (t : Text)
    → Agrees us t (digit_entry us t) (check_digit_first (some (without_domains us)) t)
unfolding digit_entry check_digit_first
digit-Agrees us t = elim (Result-cases (parse_and_validate_ipv4 plain_options (some t))) [
  | inl (r, parsed) ↦
      rw (digit_entry, check_digit_first, parsed) (alike (ok (address_entry, r.normalized)) tt)
  | inr (e, failed) ↦ elim (Result-cases (validate_hostname (some t))) [
    | inl (h, named) ↦ rw (digit_entry, check_digit_first, failed, named) (hostname-Agrees us t)
    | inr (e', unnamed) ↦
        rw (digit_entry, check_digit_first, failed, unnamed) (alike (err (not_ipv4 e)) tt)
  ]
]

letter-Agrees :
    (us : List Text) (t : Text)
    → Agrees us t (letter_entry us t) (check_letter_first (some (without_domains us)) t)
unfolding letter_entry check_letter_first
letter-Agrees us t = elim (Result-cases (validate_hostname (some t))) [
  | inl (h, named) ↦ rw (letter_entry, check_letter_first, named) (hostname-Agrees us t)
  | inr (e, unnamed) ↦
      rw (letter_entry, check_letter_first, unnamed) (alike (err (bad_hostname e)) tt)
]

normal-Agrees :
    (us : List Text) (t : Text)
    → Agrees us t (normal_entry us t) (check_normal (some (without_domains us)) t)
unfolding normal_entry check_normal
normal-Agrees us [] = alike (err required) tt
normal-Agrees us (c ∷ s) = elim (Bool-cases (is_digit c)) [
  | inl digit ↦ rw (normal_entry, check_normal, digit) (digit-Agrees us (c ∷ s))
  | inr other ↦ elim (Bool-cases (is_letter c)) [
    | inl letter ↦ rw (normal_entry, check_normal, other, letter) (letter-Agrees us (c ∷ s))
    | inr neither ↦ rw (normal_entry, check_normal, other, neither) (alike (err invalid_format) tt)
  ]
]

-- With the same upstream servers in the resolver's settings, which are texts, the firewall page
-- answers to an entry like the aliases page, except for hostnames: the aliases page takes one exactly
-- under the zone of an upstream server, and otherwise says that it is under no zone, or that there is
-- no zone; the firewall page always says that there is no local resolver.
pub validate_alias_entry-Agrees :
    (us : List Text) (type value : Text)
    → Agrees us
        (trim value)
        (validate_alias_entry us type value)
        (AliasEntry.validate_alias_entry (some (without_domains us)) type value)
unfolding validate_alias_entry AliasEntry.validate_alias_entry
validate_alias_entry-Agrees us type value =
    elim (Bool-cases (is_nil value || is_nil (trim value))) [
      | inl blank ↦
          rw (validate_alias_entry, AliasEntry.validate_alias_entry, blank)
            (alike (err required) tt)
      | inr full ↦ elim (Bool-cases (text_eq type (codes "web_domain"))) [
        | inl web ↦
            rw (validate_alias_entry, AliasEntry.validate_alias_entry, full, web)
              (web_domain-Agrees us (trim value))
        | inr normal ↦
            rw (validate_alias_entry, AliasEntry.validate_alias_entry, full, normal)
              (normal-Agrees us (trim value))
      ]
    ]
