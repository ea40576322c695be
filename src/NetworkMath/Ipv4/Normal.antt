-- ===== src/NetworkMath/Ipv4/Normal.antt =====
-- `parseAndValidateIPv4`: the normal form of an address.
use networkat_cloud_web_app.Prelude.{
  ℕ, ◌^◌, ◌≤◌, ◌<◌, ◌≡◌, refl, sym, ◌∙◌, ap, ◌↔◌, true, false, Option, none, some, List, [], ◌∷◌,
  arith, ap₂, ◌==◌, ok,
}
use networkat_cloud_web_app.Prelude.Text.{Text, split_on}
use networkat_cloud_web_app.Prelude.Text.Laws.{trim-NoSpace, split_on-append, split_on-Lacks}
use networkat_cloud_web_app.Prelude.Decimal.{show, parse_int}
use networkat_cloud_web_app.Prelude.Decimal.Laws.{show-IsNumeral}
use networkat_cloud_web_app.NetworkMath.Ipv4.{
  Ipv4Options, Ipv4, with_prefix, parse_and_validate_ipv4, net32_of,
}
use networkat_cloud_web_app.NetworkMath.Ipv4.Network.{
  IsNetwork, net32_of_lem, net32_of-IsNetwork, net32_of-net32_of, net32_of-lt,
}
use networkat_cloud_web_app.NetworkMath.Ipv4.Octets.{address, address-Lacks, show-Lacks}
use networkat_cloud_web_app.NetworkMath.Ipv4.Grammar.{
  cidr, PrefixFits, MaskAllowed, block_start, block_start-lt, described, cidr-plain,
  with_prefix-address, parse_and_validate_ipv4_iff,
}

==_refl : (n : ℕ) → (n == n) ≡ true
==_refl n = ground arith

block_start-block_start :
    (options : Ipv4Options) (n : ℕ) (prefix : Option ℕ)
    → n < 2 ^ 32
    → PrefixFits prefix
    → block_start options (block_start options n prefix) prefix ≡ block_start options n prefix
block_start-block_start options n none h k = refl
block_start-block_start options n (some p) h k = ground (
  arith,
  net32_of_lem n p h k,
  net32_of-lt n p h k,
  net32_of_lem (net32_of n p) p,
  net32_of-net32_of n p h k,
)

parse-cidr :
    (options : Ipv4Options) (n : ℕ) (prefix : Option ℕ)
    → n < 2 ^ 32
    → PrefixFits prefix
    → MaskAllowed options prefix
    → parse_and_validate_ipv4 options (some (cidr n prefix)) ≡ ok (described options n prefix)
parse-cidr options n prefix h k a = (parse_and_validate_ipv4_iff options (cidr n prefix) _).1 (
  n,
  prefix,
  record {
    small = h;
    fits = k;
    allowed = a;
    text = trim-NoSpace (cidr n prefix) (cidr-plain n prefix).2;
  },
  refl,
)

described-block_start :
    (options : Ipv4Options) (n : ℕ) (prefix : Option ℕ)
    → n < 2 ^ 32
    → PrefixFits prefix
    → described options (block_start options n prefix) prefix
      ≡ record (described options n prefix) {
        raw = (described options n prefix).normalized;
        ip = (described options n prefix).network_ip;
        was_adjusted = false;
      }
described-block_start options n prefix h k =
    rw (block_start-block_start options n prefix h k, ==_refl (block_start options n prefix))

-- Validating the normal form again accepts it and adjusts nothing: the address reported is the
-- network's, and prefix, network and normal form stay.
pub parse-normalized :
    (options : Ipv4Options) (s : Text) (r : Ipv4)
    → parse_and_validate_ipv4 options (some s) ≡ ok r
    → parse_and_validate_ipv4 options (some r.normalized)
      ≡ ok (record r { raw = r.normalized; ip = r.network_ip; was_adjusted = false })
parse-normalized options s r e =
    let (n, prefix, d, r_is) = (parse_and_validate_ipv4_iff options s r).0 e in
    rw r_is (
      parse-cidr options (block_start options n prefix) prefix
        (block_start-lt options n prefix d.small d.fits) d.fits d.allowed
      ∙ ap ok (described-block_start options n prefix d.small d.fits))

-- With a prefix, and with normalising asked for, the address and the network reported are those of
-- two numbers: the network's is at or below the address's, less than one block away and a multiple
-- of the block size; the result says "not adjusted" exactly when they are the same.
pub parse-IsNetwork :
    (options : Ipv4Options) (s : Text) (r : Ipv4) (p : ℕ)
    → options.normalize_subnet ≡ true
    → parse_and_validate_ipv4 options (some s) ≡ ok r
    → r.prefix ≡ some p
    → (n m : ℕ) × (r.ip ≡ address n)
      × (r.network_ip ≡ address m)
      × (p ≤ 32)
      × IsNetwork n p m
      × ((r.was_adjusted ≡ false) ↔ (m ≡ n))
parse-IsNetwork options s r p on e with_p =
    let (n, prefix, d, r_is) = (parse_and_validate_ipv4_iff options s r).0 e in
    let same : prefix ≡ some p = sym (ap (λ q. q.prefix) r_is) ∙ with_p in
    let p_fits : p ≤ 32 = rw same at d.fits in
    let m_is : block_start options n prefix ≡ net32_of n p =
      rw same (rw on (sym (net32_of_lem n p d.small p_fits))) in
    (
      n,
      net32_of n p,
      ap (λ q. q.ip) r_is,
      ap (λ q. q.network_ip) r_is ∙ ap address m_is,
      p_fits,
      net32_of-IsNetwork n p d.small p_fits,
      rw (r_is, m_is) (ground arith),
    )

cidr_parts : ℕ → Option ℕ → List Text
cidr_parts n none = address n ∷ []
cidr_parts n (some p) = address n ∷ show p ∷ []

split_on-cidr : (n : ℕ) (prefix : Option ℕ) → split_on b'/' (cidr n prefix) ≡ cidr_parts n prefix
unfolding cidr cidr_parts
split_on-cidr n none = split_on-Lacks b'/' (address n) (address-Lacks b'/' n refl refl)
split_on-cidr n (some p) = rw (
  split_on-append b'/' (address n) (show p) (address-Lacks b'/' n refl refl),
  split_on-Lacks b'/' (show p) (show-Lacks b'/' p refl),
)

-- The text of an address tells its number and its prefix.
cidr_parts_inj :
    (m n : ℕ) (p q : Option ℕ) → cidr_parts m p ≡ cidr_parts n q → (address m ≡ address n) × (p ≡ q)
unfolding cidr_parts
cidr_parts_inj m n none none e = ground arith
cidr_parts_inj m n none (some q) e = ground arith
cidr_parts_inj m n (some p) none e = ground arith
cidr_parts_inj m n (some p) (some q) e =
    let shown : show p ≡ show q = ground arith in
    let number : p ≡ q = sym (show-IsNumeral p).2 ∙ ap parse_int shown ∙ (show-IsNumeral q).2 in
    (ground arith, ap some number)

cidr_inj : (m n : ℕ) (p q : Option ℕ) → cidr m p ≡ cidr n q → (address m ≡ address n) × (p ≡ q)
cidr_inj m n p q e =
    cidr_parts_inj m n p q (sym (split_on-cidr m p) ∙ ap (split_on b'/') e ∙ split_on-cidr n q)

-- The normal forms of two inputs are the same text exactly when they have the same prefix (or
-- both have none) and the same network address.
pub normalized_eq_iff :
    (options options' : Ipv4Options) (s s' : Text) (r r' : Ipv4)
    → parse_and_validate_ipv4 options (some s) ≡ ok r
    → parse_and_validate_ipv4 options' (some s') ≡ ok r'
    → (r.normalized ≡ r'.normalized) ↔ ((r.network_ip ≡ r'.network_ip) × (r.prefix ≡ r'.prefix))
normalized_eq_iff options options' s s' r r' e e' =
    let (n, p, _, r_is) = (parse_and_validate_ipv4_iff options s r).0 e in
    let (n', p', _, r'_is) = (parse_and_validate_ipv4_iff options' s' r').0 e' in
    rw (r_is, r'_is)
      (
        cidr_inj (block_start options n p) (block_start options' n' p') p p',
        λ both.
            cidr_of_address (block_start options n p) (block_start options' n' p') p p' both.0
              both.1,
      )
  where
    cidr_of_address :
        (m n : ℕ) (p q : Option ℕ) → address m ≡ address n → p ≡ q → cidr m p ≡ cidr n q
    cidr_of_address m n p q a b =
        sym (with_prefix-address m p) ∙ ap₂ with_prefix a b ∙ with_prefix-address n q
