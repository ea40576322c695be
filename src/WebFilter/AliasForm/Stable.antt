-- ===== src/WebFilter/AliasForm/Stable.antt =====
-- `validateAliasModalEntry`: the normal form of an entry, validated again.
use networkat_cloud_web_app.Prelude.{
  ◌≡◌, refl, sym, ◌∙◌, Bool, true, false, not, ◌||◌, some, [], ◌∷◌, is_nil, ok, arith, Result-cases,
  Bool-cases, inl, inr, reject-eq-ok,
}
use networkat_cloud_web_app.Prelude.Text.{Text, codes, text_eq, trim, is_digit, is_letter}
use networkat_cloud_web_app.Prelude.Text.Laws.{not-nil_of_trim}
use networkat_cloud_web_app.Prelude.Text.Trimming.{IsTrimmed, trim-trim}
use networkat_cloud_web_app.NetworkMath.Ipv4.{Ipv4, parse_and_validate_ipv4, plain_options}
use networkat_cloud_web_app.NetworkMath.Ipv4.Normal.{parse-normalized}
use networkat_cloud_web_app.Firewall.Addresses.Stable.{normalized-IsPart}
use networkat_cloud_web_app.Firewall.AliasEntry.{
  EntryType, invalid_domain, enter_domain, looks_like_ipv4, domain_regex, address_entry,
  check_web_domain,
}
use networkat_cloud_web_app.Firewall.AliasEntry.Stable.{normalized-head}
use networkat_cloud_web_app.AliasLists.Rows.Again.{IsStable}
use networkat_cloud_web_app.WebFilter.AliasForm.{
  check_modal_digit, check_modal_letter, check_modal_normal, validate_alias_modal_entry,
}

-- An entry is kept as it was typed, or is the normal form of an address.
data IsKept (web : Bool) (t : Text) : EntryType → Text → Type 0 where
  as_typed : (ty : EntryType) → IsKept web t ty t
  as_address :
      (r : Ipv4)
      → web ≡ false
      → parse_and_validate_ipv4 plain_options (some t) ≡ ok r
      → IsKept web t address_entry r.normalized

same_text : {web : Bool} {t u : Text} (ty : EntryType) → t ≡ u → IsKept web t ty u
same_text ty h = rw (sym h) (as_typed ty)

check_web_domain-IsKept :
    (t u : Text) (ty : EntryType) → check_web_domain t ≡ ok (ty, u) → IsKept true t ty u
unfolding check_web_domain
check_web_domain-IsKept t u ty h =
    let (_, h₁) = reject-eq-ok (text_eq t (codes "*") || text_eq t (codes "*.")) invalid_domain h in
    let (_, h₂) = reject-eq-ok (looks_like_ipv4 t) enter_domain h₁ in
    let (_, h₃) = reject-eq-ok (not (domain_regex t)) invalid_domain h₂ in same_text ty cc

check_modal_digit-IsKept :
    (t u : Text) (ty : EntryType) → check_modal_digit t ≡ ok (ty, u) → IsKept false t ty u
unfolding check_modal_digit
check_modal_digit-IsKept t u ty h =
    elim (Result-cases (parse_and_validate_ipv4 plain_options (some t))) [
      | inl (r, good) ↦
          let h' = rw (check_modal_digit, good) at h in
          let kind : address_entry ≡ ty = cc in
          let same : r.normalized ≡ u = cc in rw (sym kind, sym same) (as_address r refl good)
      | inr (e, bad) ↦ let h' = rw (check_modal_digit, bad) at h in absurd cc
    ]

check_modal_letter-IsKept :
    (t u : Text) (ty : EntryType) → check_modal_letter t ≡ ok (ty, u) → IsKept false t ty u
unfolding check_modal_letter
check_modal_letter-IsKept t u ty h = same_text ty (ground (arith, h))

check_modal_normal-IsKept :
    (t u : Text) (ty : EntryType) → check_modal_normal t ≡ ok (ty, u) → IsKept false t ty u
unfolding check_modal_normal
check_modal_normal-IsKept [] u ty h = cc
check_modal_normal-IsKept (c ∷ s) u ty h = elim (Bool-cases (is_digit c)) [
  | inl digit ↦ check_modal_digit-IsKept (c ∷ s) u ty (rw (check_modal_normal, digit) at h)
  | inr other ↦ elim (Bool-cases (is_letter c)) [
    | inl letter ↦
        check_modal_letter-IsKept (c ∷ s) u ty (rw (check_modal_normal, other, letter) at h)
    | inr neither ↦ let h' = rw (check_modal_normal, other, neither) at h in absurd cc
  ]
]

modal-full :
    (type value u : Text) (ty : EntryType)
    → validate_alias_modal_entry type value ≡ ok (ty, u)
    → is_nil (trim value) ≡ false
unfolding validate_alias_modal_entry
modal-full type value u ty h = ground arith

modal-IsKept :
    (type value u : Text) (ty : EntryType)
    → validate_alias_modal_entry type value ≡ ok (ty, u)
    → IsKept (text_eq type (codes "web_domain")) (trim value) ty u
unfolding validate_alias_modal_entry
modal-IsKept type value u ty h =
    let full = modal-full type value u ty h in
    let some_value = not-nil_of_trim value full in
    elim (Bool-cases (text_eq type (codes "web_domain"))) [
      | inl web ↦ rw web (
          check_web_domain-IsKept (trim value) u ty
            (rw (validate_alias_modal_entry, some_value, full, web) at h))
      | inr normal ↦ rw normal (
          check_modal_normal-IsKept (trim value) u ty
            (rw (validate_alias_modal_entry, some_value, full, normal) at h))
    ]

IsKept-IsTrimmed :
    {web : Bool} {t u : Text} {ty : EntryType} → IsTrimmed t → IsKept web t ty u → IsTrimmed u
IsKept-IsTrimmed h (as_typed ty) = h
IsKept-IsTrimmed {t = t} h (as_address r _ e) =
    let (part, _) = normalized-IsPart t r e in (part.trimmed, part.full)

modal-trim :
    (type value u : Text) (ty : EntryType)
    → validate_alias_modal_entry type value ≡ ok (ty, u)
    → validate_alias_modal_entry type (trim value) ≡ ok (ty, u)
unfolding validate_alias_modal_entry
modal-trim type value u ty h =
    let full = modal-full type value u ty h in
    rw (trim-trim value, full) (rw (full, not-nil_of_trim value full) at h)

address_again :
    (type t : Text) (r : Ipv4)
    → text_eq type (codes "web_domain") ≡ false
    → parse_and_validate_ipv4 plain_options (some t) ≡ ok r
    → validate_alias_modal_entry type r.normalized ≡ ok (address_entry, r.normalized)
unfolding validate_alias_modal_entry check_modal_normal check_modal_digit
address_again type t r normal e =
    let (c, s, head, digit) = normalized-head t r e in
    let (part, _) = normalized-IsPart t r e in
    let again = parse-normalized plain_options t r e in
    let by_digit : check_modal_normal r.normalized ≡ check_modal_digit r.normalized =
      rw head (rw digit refl) in
    rw (part.trimmed, part.full, normal) (by_digit ∙ rw (check_modal_digit, again) refl)

modal-again :
    (type value u : Text) (ty : EntryType)
    → validate_alias_modal_entry type value ≡ ok (ty, u)
    → validate_alias_modal_entry type u ≡ ok (ty, u)
modal-again type value u ty h = go (modal-IsKept type value u ty h) (modal-trim type value u ty h)
  where
    go :
        {v : Text} {ty' : EntryType}
        → IsKept (text_eq type (codes "web_domain")) (trim value) ty' v
        → validate_alias_modal_entry type (trim value) ≡ ok (ty', v)
        → validate_alias_modal_entry type v ≡ ok (ty', v)
    go (as_typed ty') k = k
    go (as_address r normal e) k = address_again type (trim value) r normal e

pub validate_alias_modal_entry-IsStable : (type : Text) → IsStable (validate_alias_modal_entry type)
validate_alias_modal_entry-IsStable type = record {
  trimmed = λ v ty u h.
      let full = modal-full type (trim v) u ty h in
      IsKept-IsTrimmed (trim-trim (trim v), full) (modal-IsKept type (trim v) u ty h);
  again = λ v ty u h. modal-again type v u ty h;
}
