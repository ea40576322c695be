-- ===== src/Firewall/AliasEntry/Kinds.antt =====
-- `validateAliasEntry`: the kinds of entries.
use networkat_cloud_web_app.Prelude.{
  ◌≡◌, refl, sym, ◌∙◌, ap, Bool, true, false, not, ◌||◌, Option, none, some, List, [], ◌∷◌, arith,
  any, Result, ok, err, ◌>>◌, Bool-cases, inl, inr, reject-eq-ok,
}
use networkat_cloud_web_app.Prelude.Text.{Text, codes, text_eq, trim, to_lower, is_digit}
use networkat_cloud_web_app.Prelude.Text.Trimming.{trim-trim}
use networkat_cloud_web_app.NetworkMath.Ipv4.{
  Ipv4Error, Ipv4, parse_and_validate_ipv4, plain_options,
}
use networkat_cloud_web_app.NetworkMath.Dns.{DnsError, hostname_options, validate_hostname}
use networkat_cloud_web_app.NetworkMath.Dns.Labels.{is_dns_name, validate_dns_name_iff}
use networkat_cloud_web_app.Firewall.AliasEntry.{
  Upstream, EntryError, EntryType, enter_domain, invalid_domain, not_ipv4, bad_hostname,
  domain_entry, address_entry, hostname_entry, local_domains, is_under, check_local_domain,
  looks_like_ipv4, domain_regex, check_web_domain, as_hostname, check_digit_first,
  check_letter_first, check_normal, validate_alias_entry,
}

-- What an entry is: a domain of the web, an address in its normal form, or a hostname under one of
-- the local domains.
pub data IsEntry (config : Option (List Upstream)) (web : Bool) (t : Text)
    : EntryType → Text → Type 0 where
  a_domain :
      web ≡ true
      → looks_like_ipv4 t ≡ false
      → domain_regex t ≡ true
      → IsEntry config web t domain_entry t
  an_address :
      (r : Ipv4)
      → web ≡ false
      → parse_and_validate_ipv4 plain_options (some t) ≡ ok r
      → IsEntry config web t address_entry r.normalized
  a_hostname :
      (upstream : List Upstream)
      → web ≡ false
      → is_dns_name hostname_options t ≡ true
      → config ≡ some upstream
      → any (is_under (to_lower t)) (local_domains upstream) ≡ true
      → IsEntry config web t hostname_entry t

ok_pair :
    {E : Type 0} {ty ty' : EntryType} {t u : Text}
    → ◌≡◌ {A = Result E (EntryType × Text)} (ok (ty, t)) (ok (ty', u))
    → (ty ≡ ty') × (t ≡ u)
ok_pair h = (cc, cc)

check_local_domain-local :
    (config : Option (List Upstream)) (t : Text)
    → check_local_domain config t ≡ ok tt
    → (upstream : List Upstream) × (config ≡ some upstream)
      × (any (is_under (to_lower t)) (local_domains upstream) ≡ true)
unfolding check_local_domain
check_local_domain-local none t h = cc
check_local_domain-local (some upstream) t h = (upstream, refl, ground arith)

is_dns_name_of_ok :
    (t u : Text)
    → trim t ≡ t
    → validate_hostname (some t) ≡ ok u
    → is_dns_name hostname_options t ≡ true
unfolding validate_hostname
is_dns_name_of_ok t u e h =
    ap (is_dns_name hostname_options) (sym e) ∙ ((validate_dns_name_iff hostname_options t u).0 h).1

as_hostname-IsEntry :
    (config : Option (List Upstream)) (t u : Text) (ty : EntryType)
    → is_dns_name hostname_options t ≡ true
    → as_hostname config t ≡ ok (ty, u)
    → IsEntry config false t ty u
unfolding as_hostname
as_hostname-IsEntry config t u ty named h = go (check_local_domain config t) refl h
  where
    go :
        (r : Result EntryError (Unit {0}))
        → check_local_domain config t ≡ r
        → (let entry : Result EntryError (EntryType × Text) = ok (hostname_entry, t) in r >> entry)
          ≡ ok (ty, u)
        → IsEntry config false t ty u
    go (err e) is_r h = cc
    go (ok x) is_r h =
        let (upstream, there, under) = check_local_domain-local config t is_r in
        let (kind, same) = ok_pair h in
        rw (sym kind, sym same) (a_hostname upstream refl named there under)

check_digit_first-IsEntry :
    (config : Option (List Upstream)) (t u : Text) (ty : EntryType)
    → trim t ≡ t
    → check_digit_first config t ≡ ok (ty, u)
    → IsEntry config false t ty u
unfolding check_digit_first
check_digit_first-IsEntry config t u ty e h =
    go (parse_and_validate_ipv4 plain_options (some t)) (validate_hostname (some t)) refl refl h
  where
    go :
        (r : Result Ipv4Error Ipv4) (d : Result DnsError Text)
        → parse_and_validate_ipv4 plain_options (some t) ≡ r
        → validate_hostname (some t) ≡ d
        → elim r as (λ k. Result EntryError (EntryType × Text)) [
          | ok r ↦ ok (address_entry, r.normalized)
          | err e ↦ elim d as (λ k. Result EntryError (EntryType × Text)) [
            | ok _ ↦ as_hostname config t
            | err _ ↦ err (not_ipv4 e)
          ]
        ]
          ≡ ok (ty, u)
        → IsEntry config false t ty u
    go (ok r) d is_r is_d h =
        let (kind, same) = ok_pair h in rw (sym kind, sym same) (an_address r refl is_r)
    go (err x) (ok v) is_r is_d h =
        as_hostname-IsEntry config t u ty (is_dns_name_of_ok t v e is_d) h
    go (err x) (err y) is_r is_d h = cc

check_letter_first-IsEntry :
    (config : Option (List Upstream)) (t u : Text) (ty : EntryType)
    → trim t ≡ t
    → check_letter_first config t ≡ ok (ty, u)
    → IsEntry config false t ty u
unfolding check_letter_first
check_letter_first-IsEntry config t u ty e h = go (validate_hostname (some t)) refl h
  where
    go :
        (d : Result DnsError Text)
        → validate_hostname (some t) ≡ d
        → elim d [ ok _ ↦ as_hostname config t | err y ↦ err (bad_hostname y) ] ≡ ok (ty, u)
        → IsEntry config false t ty u
    go (ok v) is_d h = as_hostname-IsEntry config t u ty (is_dns_name_of_ok t v e is_d) h
    go (err y) is_d h = cc

check_web_domain-IsEntry :
    (config : Option (List Upstream)) (t u : Text) (ty : EntryType)
    → check_web_domain t ≡ ok (ty, u)
    → IsEntry config true t ty u
unfolding check_web_domain
check_web_domain-IsEntry config t u ty h =
    let (_, h₁) = reject-eq-ok (text_eq t (codes "*") || text_eq t (codes "*.")) invalid_domain h in
    let (not_ip, h₂) = reject-eq-ok (looks_like_ipv4 t) enter_domain h₁ in
    let (matches, h₃) = reject-eq-ok (not (domain_regex t)) invalid_domain h₂ in
    let (kind, same) = ok_pair h₃ in
    rw (sym kind, sym same) (a_domain refl not_ip (ground (arith, matches)))

-- An entry that is accepted is, after trimming, a domain of the web that does not look like an
-- address, for a list of such; for any other list an address, or a hostname under a local domain.
pub validate_alias_entry-IsEntry :
    (config : Option (List Upstream)) (type value u : Text) (ty : EntryType)
    → validate_alias_entry config type value ≡ ok (ty, u)
    → IsEntry config (text_eq type (codes "web_domain")) (trim value) ty u
unfolding validate_alias_entry check_normal
validate_alias_entry-IsEntry config type value u ty h =
    elim (Bool-cases (text_eq type (codes "web_domain"))) [
      | inl web ↦ rw web (check_web_domain-IsEntry config (trim value) u ty (ground arith))
      | inr normal ↦ rw normal (check_normal-IsEntry (trim value) (trim-trim value) (ground arith))
    ]
  where
    check_normal-IsEntry :
        (t : Text) → trim t ≡ t → check_normal config t ≡ ok (ty, u) → IsEntry config false t ty u
    check_normal-IsEntry [] e h = cc
    check_normal-IsEntry (c ∷ s) e h = elim (Bool-cases (is_digit c)) [
      | inl digit ↦ check_digit_first-IsEntry config (c ∷ s) u ty e (ground arith)
      | inr other ↦ check_letter_first-IsEntry config (c ∷ s) u ty e (ground arith)
    ]
