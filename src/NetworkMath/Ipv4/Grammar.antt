-- ===== src/NetworkMath/Ipv4/Grammar.antt =====
-- `parseAndValidateIPv4`: which texts it accepts, and what it says of them.
use mathlib.Core.Option
use networkat_cloud_web_app.Prelude.{
  ℕ, ◌-◌, ◌*◌, ◌^◌, ◌≤◌, ◌<◌, ◌≡◌, refl, sym, ◌∙◌, ap, ◌↔◌, true, false, not, Option, none, some,
  [], ◌∷◌, ◌++◌, arith, ◌==◌, if◌then◌else◌, length, is_nil, keep, ok, any-append,
  is_nil-append_cons, reject-eq-ok, ap₂, >>=-eq-ok, ◌/◌,
}
use networkat_cloud_web_app.Prelude.Text.{Text, trim, includes, split_on, is_space}
use networkat_cloud_web_app.Prelude.Text.Laws.{
  two_parts, Lacks, includes-append, split_on-Lacks, split_on-append, length-split_on,
  keep_of_Lacks, keep-append, NoSpace, trim-NoSpace,
}
use networkat_cloud_web_app.Prelude.Decimal.{show}
use networkat_cloud_web_app.NetworkMath.Ipv4.{
  required, only_ipv4, octet_count, Ipv4Options, Ipv4, parse_octets, parse_mask, parse_prefix,
  ip32_of, net32_of, is_some, network_ip_of, with_prefix, ipv4_result, split_mask, parse_trimmed,
  parse_and_validate_ipv4,
}
use networkat_cloud_web_app.NetworkMath.Ipv4.Network.{net32_of_lem, net32_of-lt}
use networkat_cloud_web_app.NetworkMath.Ipv4.Octets.{
  octets_of, address, parse_octets-show, parse_mask_sound, address_of_parts, address-NoSpace,
  show-NoSpace, address-ne-nil, parse_mask-show, show-Lacks, address-Lacks, split_on-address,
  octets-small, ip32_of-octets, dotted-address, text_eq-address,
}

-- An address with its prefix length, as a text.
unfoldable pub cidr : ℕ → Option ℕ → Text
cidr n none = address n
cidr n (some p) = address n ++ b'/' ∷ show p

abbrev pub PrefixFits : Option ℕ → Type 0
PrefixFits none = Unit
PrefixFits (some p) = p ≤ 32

-- What the caller's options ask of the mask.
abbrev pub MaskAllowed : Ipv4Options → Option ℕ → Type 0
MaskAllowed options none = options.require_mask ≡ false
MaskAllowed options (some p) = options.allow_mask ≡ true

-- The text `s` denotes the address `n` with this prefix, in the one way that is accepted.
pub record Denotes (options : Ipv4Options) (s : Text) (n : ℕ) (prefix : Option ℕ) : Type 0 where
  pub small : n < 2 ^ 32
  pub fits : PrefixFits prefix
  pub allowed : MaskAllowed options prefix
  pub text : s ≡ cidr n prefix

-- The lowest address of the block, where the caller wants the network.
abbrev pub block_start : Ipv4Options → ℕ → Option ℕ → ℕ
block_start options n none = n
block_start options n (some p) =
    if options.normalize_subnet then n / 2 ^ (32 - p) * 2 ^ (32 - p) else n

-- What is to be reported of an address.
abbrev pub described : Ipv4Options → ℕ → Option ℕ → Ipv4
described options n prefix = record {
  raw = cidr n prefix;
  ip = address n;
  prefix = prefix;
  has_mask = is_some prefix;
  network_ip = address (block_start options n prefix);
  normalized = cidr (block_start options n prefix) prefix;
  was_adjusted = not (block_start options n prefix == n);
}

pub block_start-lt :
    (options : Ipv4Options) (n : ℕ) (prefix : Option ℕ)
    → n < 2 ^ 32
    → PrefixFits prefix
    → block_start options n prefix < 2 ^ 32
block_start-lt options n none h k = h
block_start-lt options n (some p) h k = ground (arith, net32_of_lem n p h k, net32_of-lt n p h k)

network_ip_of-address :
    (options : Ipv4Options) (n : ℕ) (prefix : Option ℕ)
    → n < 2 ^ 32
    → PrefixFits prefix
    → network_ip_of options (address n) (ip32_of (octets_of n)) prefix
      ≡ address (block_start options n prefix)
unfolding network_ip_of
network_ip_of-address options n none h k = refl
network_ip_of-address options n (some p) h k = ground (
  arith,
  ip32_of-octets n h,
  net32_of_lem n p h k,
  dotted-address (net32_of n p) (net32_of-lt n p h k),
)

pub with_prefix-address :
    (n : ℕ) (prefix : Option ℕ) → with_prefix (address n) prefix ≡ cidr n prefix
unfolding with_prefix cidr
with_prefix-address n none = refl
with_prefix-address n (some p) = refl

-- What is computed from four octets is what is to be reported.
ipv4_result-octets :
    (options : Ipv4Options) (raw : Text) (n : ℕ) (prefix : Option ℕ)
    → n < 2 ^ 32
    → PrefixFits prefix
    → raw ≡ cidr n prefix
    → ipv4_result options raw (address n) (octets_of n) prefix ≡ described options n prefix
unfolding ipv4_result
ipv4_result-octets options raw n prefix h k e =
    let m = block_start options n prefix in
    let hm = block_start-lt options n prefix h k in
    rw (
      e,
      network_ip_of-address options n prefix h k,
      with_prefix-address m prefix,
      text_eq-address m n hm h,
    )

-- The split at the slash, read backwards.
abbrev SplitAs : Ipv4Options → Text → Text → Option Text → Type 0
SplitAs options t ip none = (ip ≡ t) × (options.require_mask ≡ false)
SplitAs options t ip (some m) = (t ≡ ip ++ b'/' ∷ m) × (options.allow_mask ≡ true)

split_mask_sound :
    (options : Ipv4Options) (t ip : Text) (mask : Option Text)
    → split_mask options t ≡ ok (ip, mask)
    → SplitAs options t ip mask
unfolding split_mask
split_mask_sound options t ip none h = ground arith
split_mask_sound options t ip (some m) h = ground (arith, length-split_on b'/' t, two_parts b'/' t)

slash_free : (n : ℕ) → Lacks b'/' (address n)
slash_free n = address-Lacks b'/' n refl refl

slashes-cidr : (n p : ℕ) → length (keep (λ c. c == b'/') (address n ++ b'/' ∷ show p)) ≡ 1
slashes-cidr n p = rw (
  keep-append,
  keep_of_Lacks b'/' (address n) (slash_free n),
  keep_of_Lacks b'/' (show p) (show-Lacks b'/' p refl),
)

split_mask-cidr :
    (options : Ipv4Options) (n : ℕ) (prefix : Option ℕ)
    → MaskAllowed options prefix
    → split_mask options (cidr n prefix) ≡ ok (address n, Option.map show prefix)
unfolding split_mask cidr
split_mask-cidr options n none a = rw (keep_of_Lacks b'/' (address n) (slash_free n), a)
split_mask-cidr options n (some p) a = rw (
  slashes-cidr n p,
  split_on-append b'/' (address n) (show p) (slash_free n),
  split_on-Lacks b'/' (show p) (show-Lacks b'/' p refl),
  a,
)

parse_prefix_sound :
    (options : Ipv4Options) (t ip : Text) (mask : Option Text) (prefix : Option ℕ)
    → SplitAs options t ip mask
    → parse_prefix mask ≡ ok prefix
    → (t ≡ with_prefix ip prefix) × PrefixFits prefix × MaskAllowed options prefix
unfolding parse_prefix with_prefix
parse_prefix_sound options t ip none none (e, a) h = (sym e, tt, a)
parse_prefix_sound options t ip none (some p) (e, a) h = cc
parse_prefix_sound options t ip (some m) none (e, a) h = ground arith
parse_prefix_sound options t ip (some m) (some p) (e, a) h =
    let (q, e', h') = >>=-eq-ok (parse_mask m) _ h in
    let (shown, small) = parse_mask_sound m q e' in
    let same : q ≡ p = ground arith in rw (← same) (e ∙ ap (λ u. ip ++ b'/' ∷ u) shown, small, a)

parse_prefix-show :
    (prefix : Option ℕ) → PrefixFits prefix → parse_prefix (Option.map show prefix) ≡ ok prefix
unfolding parse_prefix
parse_prefix-show none h = refl
parse_prefix-show (some p) h = rw (parse_mask-show p h)

-- What the parser makes of a trimmed text.
abbrev pub Parses : Ipv4Options → Text → Ipv4 → Type 0
Parses options s r =
    (n : ℕ) × (prefix : Option ℕ) × Denotes options s n prefix × (r ≡ described options n prefix)

parse_trimmed_sound :
    (options : Ipv4Options) (t : Text) (r : Ipv4)
    → parse_trimmed options t ≡ ok r
    → Parses options t r
unfolding parse_trimmed
parse_trimmed_sound options t r h =
    let (_, h₁) = reject-eq-ok (is_nil t) required h in
    let (_, h₂) = reject-eq-ok (includes b':' t) only_ipv4 h₁ in
    let ((ip, mask), e₃, h₃) = >>=-eq-ok (split_mask options t) _ h₂ in
    let (four, h₄) = reject-eq-ok (not (length (split_on b'.' ip) == 4)) octet_count h₃ in
    let (nums, e₅, h₅) = >>=-eq-ok (parse_octets 0 (split_on b'.' ip)) _ h₄ in
    let (prefix, e₆, h₆) = >>=-eq-ok (parse_prefix mask) _ h₅ in
    let (n, small, octets, ip_is) = address_of_parts ip nums four e₅ in
    let (t_is, fits, allowed) =
      parse_prefix_sound options t ip mask prefix (split_mask_sound options t ip mask e₃) e₆ in
    let text : t ≡ cidr n prefix =
      t_is ∙ ap (λ s. with_prefix s prefix) ip_is ∙ with_prefix-address n prefix in
    let result : r ≡ ipv4_result options t ip nums prefix = ground arith in
    let parts : ipv4_result options t ip nums prefix
        ≡ ipv4_result options t (address n) (octets_of n) prefix =
      ap₂ (λ s ns. ipv4_result options t s ns prefix) ip_is octets in
    (
      n,
      prefix,
      record { small = small; fits = fits; allowed = allowed; text = text },
      result ∙ parts ∙ ipv4_result-octets options t n prefix small fits text,
    )

pub cidr-plain :
    (n : ℕ) (prefix : Option ℕ)
    → (is_nil (cidr n prefix) ≡ false) × Lacks b':' (cidr n prefix) × NoSpace (cidr n prefix)
unfolding cidr is_space
cidr-plain n none = (address-ne-nil n, address-Lacks b':' n refl refl, address-NoSpace n)
cidr-plain n (some p) = (
  is_nil-append_cons (address n) b'/' (show p),
  ground (
    arith,
    includes-append b':' (address n) (b'/' ∷ show p),
    address-Lacks b':' n refl refl,
    show-Lacks b':' p refl,
  ),
  ground
      (arith, any-append is_space (address n) (b'/' ∷ show p), address-NoSpace n, show-NoSpace p),
)

pub parse_trimmed-cidr :
    (options : Ipv4Options) (n : ℕ) (prefix : Option ℕ)
    → n < 2 ^ 32
    → PrefixFits prefix
    → MaskAllowed options prefix
    → parse_trimmed options (cidr n prefix) ≡ ok (described options n prefix)
unfolding parse_trimmed
parse_trimmed-cidr options n prefix h k a = rw (
  (cidr-plain n prefix).0,
  (cidr-plain n prefix).1,
  split_mask-cidr options n prefix a,
  split_on-address n,
  parse_octets-show 0 (octets_of n) (octets-small n h),
  parse_prefix-show prefix k,
  ipv4_result-octets options (cidr n prefix) n prefix h k refl,
)

-- The parser accepts a text exactly when it denotes an address and perhaps a prefix, and reports
-- that address, its prefix and its network.
pub parse_and_validate_ipv4_iff :
    (options : Ipv4Options) (s : Text) (r : Ipv4)
    → (parse_and_validate_ipv4 options (some s) ≡ ok r) ↔ Parses options (trim s) r
unfolding parse_and_validate_ipv4
parse_and_validate_ipv4_iff options s r = (forth s, back s)
  where
    forth : (s : Text) → parse_and_validate_ipv4 options (some s) ≡ ok r → Parses options (trim s) r
    forth [] h = cc
    forth (c ∷ s) h = parse_trimmed_sound options (trim (c ∷ s)) r h

    back : (s : Text) → Parses options (trim s) r → parse_and_validate_ipv4 options (some s) ≡ ok r
    back [] (n, prefix, d, e) =
        let empty : trim [] ≡ [] = trim-NoSpace [] refl in
        let nil : is_nil (cidr n prefix) ≡ true = rw (← d.text, empty) refl in
        let full = (cidr-plain n prefix).0 in cc
    back (c ∷ s) (n, prefix, d, e) =
        rw (d.text, e) (parse_trimmed-cidr options n prefix d.small d.fits d.allowed)
