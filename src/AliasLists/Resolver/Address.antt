-- ===== src/AliasLists/Resolver/Address.antt =====
-- `validateDnsResolvers`: which texts it accepts.
use networkat_cloud_web_app.Prelude.{
  ℕ, ◌+◌, ◌^◌, ◌<◌, ◌≡◌, ◌↔◌, refl, sym, ◌∙◌, true, false, not, ◌&&◌, ◌||◌, List, [], ◌∷◌, map, ltb,
  ◌==◌, length, is_nil, all, arith, ok, reject-eq-ok, >>=-eq-ok,
}
use networkat_cloud_web_app.Prelude.Text.{Text, trim, includes, starts_in, split_on}
use networkat_cloud_web_app.Prelude.Text.Laws.{not-nil_of_trim}
use networkat_cloud_web_app.Prelude.Decimal.{show, parse_int, is_digits, has_leading_zero}
use networkat_cloud_web_app.NetworkMath.Ipv4.{parse_octet, parse_octets}
use networkat_cloud_web_app.NetworkMath.Ipv4.Octets.{
  address, octets_of, parse_octets-show, octets-small, split_on-address, address_of_parts,
  address-Lacks, address-ne-nil,
}
use networkat_cloud_web_app.AliasLists.Resolver.{
  required, invalid_ip, check_octets, validate_dns_resolvers,
}

leading_zero_lem : (o : Text) → (ltb 1 (length o) && starts_in b'0' o) ≡ has_leading_zero o
leading_zero_lem [] = refl
leading_zero_lem (c ∷ []) = refl
leading_zero_lem (c ∷ d ∷ s) = ground arith

-- One octet passes the tests exactly when the parser of addresses reads it.
parse_octet_lem :
    (i : ℕ) (o : Text)
    → is_digits o ≡ true
    → has_leading_zero o ≡ false
    → ltb 255 (parse_int o) ≡ false
    → parse_octet i o ≡ ok (parse_int o)
unfolding parse_octet
parse_octet_lem i o d z b = ground (arith, d, z, b)

parse_octet_tests :
    (i : ℕ) (o : Text) (v : ℕ)
    → parse_octet i o ≡ ok v
    → (is_digits o ≡ true) × (has_leading_zero o ≡ false) × (ltb 255 (parse_int o) ≡ false)
unfolding parse_octet
parse_octet_tests i o v h = ground arith

check_octets_sound :
    (i : ℕ) (os : List Text)
    → all is_digits os ≡ true
    → check_octets os ≡ ok tt
    → (nums : List ℕ) × (parse_octets i os ≡ ok nums)
unfolding check_octets parse_octets
check_octets_sound i [] d h = ([], refl)
check_octets_sound i (o ∷ os) d h =
    let (zero_free, h₁) = reject-eq-ok (ltb 1 (length o) && starts_in b'0' o) invalid_ip h in
    let (small, h₂) = reject-eq-ok (ltb 255 (parse_int o)) invalid_ip h₁ in
    let (nums, e) = check_octets_sound (i + 1) os (ground arith) h₂ in
    let digits : is_digits o ≡ true = ground arith in
    (
      parse_int o ∷ nums,
      rw (parse_octet_lem i o digits (sym (leading_zero_lem o) ∙ zero_free) small, e) refl,
    )

check_octets_complete :
    (i : ℕ) (os : List Text) (nums : List ℕ)
    → parse_octets i os ≡ ok nums
    → (all is_digits os ≡ true) × (check_octets os ≡ ok tt)
unfolding check_octets parse_octets
check_octets_complete i [] nums h = (refl, refl)
check_octets_complete i (o ∷ os) nums h =
    let (v, e, h₁) = >>=-eq-ok (parse_octet i o) _ h in
    let (vs, e₁, h₂) = >>=-eq-ok (parse_octets (i + 1) os) _ h₁ in
    let (digits, zero_free, small) = parse_octet_tests i o v e in
    let (all_digits, checked) = check_octets_complete (i + 1) os vs e₁ in
    (rw (digits, all_digits), rw (leading_zero_lem o, zero_free, small, checked))

IsOctets : Text → Type 0
IsOctets t =
    ((not (length (split_on b'.' t) == 4) || not (all is_digits (split_on b'.' t))) ≡ false)
    × (check_octets (split_on b'.' t) ≡ ok tt)

IsOctets-address : (n : ℕ) → n < 2 ^ 32 → IsOctets (address n)
unfolding IsOctets
IsOctets-address n h =
    let (digits, checked) =
      check_octets_complete 0 (map show (octets_of n)) (octets_of n)
        (parse_octets-show 0 (octets_of n) (octets-small n h)) in
    rw (split_on-address n) (rw digits refl, checked)

address_of_IsOctets : (t : Text) → IsOctets t → (n : ℕ) × (n < 2 ^ 32) × (t ≡ address n)
unfolding IsOctets
address_of_IsOctets t (shape, checked) =
    let (nums, e) = check_octets_sound 0 (split_on b'.' t) (ground arith) checked in
    let (n, small, _, is_n) = address_of_parts t nums (ground arith) e in (n, small, is_n)

-- An address of a resolver is accepted exactly when, trimmed, it is the one spelling of a 32-bit
-- number as four octets.
pub validate_dns_resolvers_iff :
    (s : Text)
    → (validate_dns_resolvers s ≡ ok tt) ↔ ((n : ℕ) × (n < 2 ^ 32) × (trim s ≡ address n))
unfolding validate_dns_resolvers IsOctets
validate_dns_resolvers_iff s = (
  λ h.
      (let t = trim s in
        let (_, h₁) = reject-eq-ok (is_nil s || is_nil t) required h in
        let (_, h₂) = reject-eq-ok (includes b'/' t || includes b':' t) invalid_ip h₁ in
        let (shape, h₃) =
          reject-eq-ok
            (not (length (split_on b'.' t) == 4) || not (all is_digits (split_on b'.' t)))
            invalid_ip h₂ in
        address_of_IsOctets t (shape, h₃)),
  λ (n, small, e).
      (let t = trim s in
        let full : is_nil t ≡ false = rw e (address-ne-nil n) in
        let typed = not-nil_of_trim s full in
        let octets : IsOctets t = rw e (IsOctets-address n small) in
        let slash : includes b'/' t ≡ false = rw e (address-Lacks b'/' n refl refl) in
        let colon : includes b':' t ≡ false = rw e (address-Lacks b':' n refl refl) in
        rw (typed, full, slash, colon, octets.0, octets.1) refl),
)
