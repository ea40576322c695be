-- ===== src/AliasLists/Resolver/Zones.antt =====
-- The text of an upstream, `[/zone/]address`, is read as its zone and address.
use networkat_cloud_web_app.Prelude.{
  ℕ, ◌≡◌, refl, sym, ◌∙◌, ap, Bool, true, false, not, ◌||◌, some, List, [], ◌∷◌, ◌++◌, ltb, ◌==◌,
  length, is_nil, all, any, any-append, arith, ok, reject-eq-ok, Bool-cases, ==_iff, inl, inr,
}
use networkat_cloud_web_app.Prelude.Text.{
  Text, codes, is_digit, trim, includes, split_on, cons_head,
}
use networkat_cloud_web_app.Prelude.Text.Trimming.{trim-trim}
use networkat_cloud_web_app.Prelude.Decimal.{show}
use networkat_cloud_web_app.Prelude.Decimal.Laws.{show-IsNumeral}
use networkat_cloud_web_app.NetworkMath.Dns.{label_regex, is_ldh}
use networkat_cloud_web_app.NetworkMath.Dns.Labels.{label_regex_lem}
use networkat_cloud_web_app.NetworkMath.Ipv4.Octets.{address, address-ne-nil}
use networkat_cloud_web_app.AliasLists.Resolver.{
  is_zone_char, is_line_end, span_zone, match_upstream, required, wildcard, invalid_domain,
  zone_regex, validate_dns_domain, validate_dns_resolvers,
}
use networkat_cloud_web_app.AliasLists.Resolver.Address.{validate_dns_resolvers_iff}

cons_head-all :
    (p : ℕ → Bool) (c : ℕ) (ws : List Text)
    → all (all p) (cons_head c ws) ≡ true
    → (p c ≡ true) × (all (all p) ws ≡ true)
cons_head-all p c [] h = ground arith
cons_head-all p c (w ∷ ws) h = ground arith

-- A test that holds of the separator and of every code unit of the words holds of the whole text.
all-split_on :
    (p : ℕ → Bool) (sep : ℕ) (s : Text)
    → p sep ≡ true
    → all (all p) (split_on sep s) ≡ true
    → all p s ≡ true
unfolding split_on
all-split_on p sep [] h k = refl
all-split_on p sep (c ∷ s) h k = elim (Bool-cases (c == sep)) [
  | inl same ↦
      let is_sep : p c ≡ true = ap p ((==_iff c sep).0 same) ∙ h in
      let rest : all (all p) (split_on sep s) ≡ true = rw (split_on, same) at k in
      rw (is_sep, all-split_on p sep s h rest)
  | inr other ↦
      let (first, rest) = cons_head-all p c (split_on sep s) (rw (split_on, other) at k) in
      rw (first, all-split_on p sep s h rest)
]

ldh-zone : (s : Text) → all is_ldh s ≡ true → all is_zone_char s ≡ true
ldh-zone [] h = refl
ldh-zone (c ∷ s) h = ground (arith, ldh-zone s)

labels-zone : (ws : List Text) → all label_regex ws ≡ true → all (all is_zone_char) ws ≡ true
labels-zone [] h = refl
labels-zone (w ∷ ws) h = ground (arith, label_regex_lem w, ldh-zone w, labels-zone ws)

zone_regex-zone : (s : Text) → zone_regex s ≡ true → all is_zone_char s ≡ true
unfolding zone_regex
zone_regex-zone s h =
    all-split_on is_zone_char b'.' s refl (labels-zone (split_on b'.' s) (ground (arith, h)))

validate_dns_domain-zone :
    (s : Text)
    → validate_dns_domain s ≡ ok tt
    → (all is_zone_char (trim s) ≡ true) × (is_nil (trim s) ≡ false)
unfolding validate_dns_domain
validate_dns_domain-zone s h =
    let t = trim s in
    let (full, h₁) = reject-eq-ok (is_nil s || is_nil t) required h in
    let (_, h₂) = reject-eq-ok (includes b'*' t) wildcard h₁ in
    let (_, h₃) = reject-eq-ok (ltb (length (split_on b'.' t)) 2) invalid_domain h₂ in
    let (matches, _) = reject-eq-ok (not (zone_regex t)) invalid_domain h₃ in
    (zone_regex-zone t (ground (arith, matches)), ground (arith, full))

digits-line : (s : Text) → all is_digit s ≡ true → any is_line_end s ≡ false
digits-line [] h = refl
digits-line (c ∷ s) h = ground (arith, digits-line s)

show-line : (n : ℕ) → any is_line_end (show n) ≡ false
show-line n = digits-line (show n) (ground (arith, show-IsNumeral n))

-- An address has no end of a line.
address-line : (n : ℕ) → any is_line_end (address n) ≡ false
unfolding address
address-line n = grind (arith, any-append, show-line)

span_zone-append :
    (zone rest : Text)
    → all is_zone_char zone ≡ true
    → span_zone (zone ++ b'/' ∷ rest) ≡ (zone, b'/' ∷ rest)
unfolding span_zone
span_zone-append [] rest h = refl
span_zone-append (c ∷ zone) rest h = ground (arith, span_zone-append zone rest)

-- The text of an upstream is read as its zone and address.
match_upstream-print :
    (zone ip : Text)
    → all is_zone_char zone ≡ true
    → is_nil zone ≡ false
    → is_nil ip ≡ false
    → any is_line_end ip ≡ false
    → match_upstream (codes "[/" ++ (zone ++ (codes "/]" ++ ip))) ≡ some (zone, ip)
unfolding match_upstream
match_upstream-print zone ip z full ip_full line =
    rw (span_zone-append zone (b']' ∷ ip) z, full, ip_full, line) refl

-- An accepted row gives a text that is read as the row, trimmed.
pub match_upstream-row :
    (domain dns_ip : Text)
    → validate_dns_domain (trim domain) ≡ ok tt
    → validate_dns_resolvers (trim dns_ip) ≡ ok tt
    → match_upstream (codes "[/" ++ (trim domain ++ (codes "/]" ++ trim dns_ip)))
      ≡ some (trim domain, trim dns_ip)
match_upstream-row domain dns_ip d i =
    let (zone, full) = rw (trim-trim domain) at (validate_dns_domain-zone (trim domain) d) in
    let (n, _, e) = (validate_dns_resolvers_iff (trim dns_ip)).0 i in
    let is_n : trim dns_ip ≡ address n = sym (trim-trim dns_ip) ∙ e in
    match_upstream-print (trim domain) (trim dns_ip) zone full (rw is_n (address-ne-nil n))
      (rw is_n (address-line n))
