-- ===== src/Firewall/AliasEntry/Stable.antt =====
-- `validateAliasEntry`: the normal form of an entry, validated again.
use networkat_cloud_web_app.Prelude.{
  ℕ, ◌≡◌, refl, ◌∙◌, ap, Bool, true, false, Option, none, some, List, ◌∷◌, ◌++◌, arith, is_nil, ok,
  inl, inr, ◌⊎◌,
}
use networkat_cloud_web_app.Prelude.Text.{Text, codes, text_eq, trim, is_digit}
use networkat_cloud_web_app.Prelude.Text.Laws.{not-nil_of_trim}
use networkat_cloud_web_app.Prelude.Text.Trimming.{trim-trim}
use networkat_cloud_web_app.Prelude.Decimal.{show}
use networkat_cloud_web_app.NetworkMath.Ipv4.{Ipv4, parse_and_validate_ipv4, plain_options}
use networkat_cloud_web_app.NetworkMath.Ipv4.Grammar.{
  cidr, block_start, parse_and_validate_ipv4_iff,
}
use networkat_cloud_web_app.NetworkMath.Ipv4.Normal.{parse-normalized}
use networkat_cloud_web_app.Firewall.AliasEntry.{
  Upstream, EntryType, address_entry, check_digit_first, check_normal, validate_alias_entry,
}
use networkat_cloud_web_app.NetworkMath.Ipv4.Octets.{address-head}
use networkat_cloud_web_app.Firewall.Addresses.Stable.{normalized-IsPart}
use networkat_cloud_web_app.Firewall.AliasEntry.Kinds.{
  IsEntry, a_domain, an_address, a_hostname, validate_alias_entry-IsEntry,
}

-- The text of an address with or without a prefix begins with a digit.
cidr-head :
    (n : ℕ) (prefix : Option ℕ)
    → (c : ℕ) × (s : Text) × (cidr n prefix ≡ c ∷ s) × (is_digit c ≡ true)
unfolding cidr
cidr-head n none = address-head n
cidr-head n (some p) =
    let (c, s, e, digit) = address-head n in
    (c, s ++ b'/' ∷ show p, ap (λ l. l ++ b'/' ∷ show p) e, digit)

pub normalized-head :
    (t : Text) (r : Ipv4)
    → parse_and_validate_ipv4 plain_options (some t) ≡ ok r
    → (c : ℕ) × (s : Text) × (r.normalized ≡ c ∷ s) × (is_digit c ≡ true)
normalized-head t r e =
    let (n, prefix, d, is_r) = (parse_and_validate_ipv4_iff plain_options t r).0 e in
    let (c, s, head, digit) = cidr-head (block_start plain_options n prefix) prefix in
    (c, s, ap (λ q. q.normalized) is_r ∙ head, digit)

-- Either the entry is kept as it was typed, or it is the normal form of an address.
Kept : Text → EntryType → Text → Type 0
Kept t ty u =
    (u ≡ t)
    ⊎ ((r : Ipv4) × (parse_and_validate_ipv4 plain_options (some t) ≡ ok r)
        × (ty ≡ address_entry)
        × (u ≡ r.normalized))

IsEntry-Kept :
    {config : Option (List Upstream)} {web : Bool} {t u : Text} {ty : EntryType}
    → IsEntry config web t ty u
    → (web ≡ true) × (u ≡ t) ⊎ (web ≡ false) × Kept t ty u
unfolding Kept
IsEntry-Kept (a_domain web _ _) = inl (web, refl)
IsEntry-Kept (an_address r normal e) = inr (normal, inr (r, e, refl, refl))
IsEntry-Kept (a_hostname upstream normal _ _ _) = inr (normal, inl refl)

validate_alias_entry-trim :
    (config : Option (List Upstream)) (type value u : Text) (ty : EntryType)
    → validate_alias_entry config type value ≡ ok (ty, u)
    → validate_alias_entry config type (trim value) ≡ ok (ty, u)
unfolding validate_alias_entry
validate_alias_entry-trim config type value u ty h =
    let full : is_nil (trim value) ≡ false = ground arith in
    rw (trim-trim value, full) (rw (full, not-nil_of_trim value full) at h)

check_normal_digit :
    (config : Option (List Upstream)) (t : Text) (c : ℕ) (s : Text)
    → t ≡ c ∷ s
    → is_digit c ≡ true
    → check_normal config t ≡ check_digit_first config t
unfolding check_normal
check_normal_digit config t c s e digit = rw e (rw digit refl)

address_again :
    (config : Option (List Upstream)) (type t : Text) (r : Ipv4)
    → text_eq type (codes "web_domain") ≡ false
    → parse_and_validate_ipv4 plain_options (some t) ≡ ok r
    → validate_alias_entry config type r.normalized ≡ ok (address_entry, r.normalized)
unfolding validate_alias_entry check_digit_first
address_again config type t r normal e =
    let (c, s, head, digit) = normalized-head t r e in
    let (part, _) = normalized-IsPart t r e in
    let again = parse-normalized plain_options t r e in
    rw (part.trimmed, part.full, normal)
      (check_normal_digit config r.normalized c s head digit ∙ rw (check_digit_first, again) refl)

-- The normal form of an entry is accepted as it stands, as the same kind of entry.
pub validate_alias_entry-stable :
    (config : Option (List Upstream)) (type value u : Text) (ty : EntryType)
    → validate_alias_entry config type value ≡ ok (ty, u)
    → validate_alias_entry config type u ≡ ok (ty, u)
unfolding Kept
validate_alias_entry-stable config type value u ty h =
    elim (IsEntry-Kept (validate_alias_entry-IsEntry config type value u ty h)) [
      | inl (_, same) ↦ as_typed same
      | inr (_, inl same) ↦ as_typed same
      | inr (normal, inr (r, e, kind, same)) ↦
          rw (kind, same) (address_again config type (trim value) r normal e)
    ]
  where
    as_typed : u ≡ trim value → validate_alias_entry config type u ≡ ok (ty, u)
    as_typed same =
        ap (validate_alias_entry config type) same
        ∙ validate_alias_entry-trim config type value u ty h
