-- ===== src/Firewall/Addresses/Stable.antt =====
-- `validateAddressInput`: what it accepts, and its normal form.
use networkat_cloud_web_app.Prelude.{
  ℕ, suc, ◌≤◌, ◌≡◌, ◌↔◌, refl, ap, true, false, Bool-cases, inl, inr, Option, none, some, List, [],
  ◌∷◌, arith, ◌==◌, length, get_or, is_nil, keep, All, ok, ◌>>=◌, >>=-eq-ok,
}
use networkat_cloud_web_app.Prelude.Text.{Text, codes, trim, starts_in, split_on, join, is_digit}
use networkat_cloud_web_app.Prelude.Text.Laws.{
  Lacks, trim-NoSpace, not-nil_of_trim, includes-append,
}
use networkat_cloud_web_app.Prelude.Text.Trimming.{IsTrimmed, join-IsTrimmed}
use networkat_cloud_web_app.Prelude.Decimal.{show}
use networkat_cloud_web_app.NetworkMath.Ipv4.{Ipv4, parse_and_validate_ipv4, plain_options}
use networkat_cloud_web_app.NetworkMath.Ipv4.Octets.{address, address-Lacks, show-Lacks}
use networkat_cloud_web_app.NetworkMath.Ipv4.Grammar.{
  cidr, cidr-plain, block_start, parse_and_validate_ipv4_iff,
}
use networkat_cloud_web_app.NetworkMath.Ipv4.Normal.{parse-normalized}
use networkat_cloud_web_app.Alias.{Alias, parts_of}
use networkat_cloud_web_app.Alias.Parts.{
  IsPart, parts_of-IsPart, parts_of-join, parts_of-join_spaced,
}
use networkat_cloud_web_app.Firewall.Addresses.{
  check_addresses, check_alias, check_parts, validate_address_input,
}
use networkat_cloud_web_app.Firewall.Addresses.Distinct.{
  AreNormal, done, more, IsDistinct, check_addresses_iff,
}

cidr-Lacks :
    (c n : ℕ) (prefix : Option ℕ)
    → is_digit c ≡ false
    → (c == b'.') ≡ false
    → (b'/' == c) ≡ false
    → Lacks c (cidr n prefix)
unfolding cidr
cidr-Lacks c n none h k l = address-Lacks c n h k
cidr-Lacks c n (some p) h k l =
    ground (
      arith,
      includes-append c (address n) (b'/' ∷ show p),
      address-Lacks c n h k,
      show-Lacks c p h,
    )

starts_in_of_Lacks : (c : ℕ) (s : Text) → Lacks c s → starts_in c s ≡ false
starts_in_of_Lacks c [] h = refl
starts_in_of_Lacks c (d ∷ s) h = ground arith

-- A normal form is a part of its own, and no alias.
pub normalized-IsPart :
    (s : Text) (r : Ipv4)
    → parse_and_validate_ipv4 plain_options (some s) ≡ ok r
    → IsPart r.normalized × (starts_in b'@' r.normalized ≡ false)
normalized-IsPart s r e =
    let (n, prefix, d, r_is) = (parse_and_validate_ipv4_iff plain_options s r).0 e in
    let m = block_start plain_options n prefix in
    let (full, _, no_space) = cidr-plain m prefix in
    rw r_is (
      record {
        trimmed = trim-NoSpace (cidr m prefix) no_space;
        full = full;
        comma_free = cidr-Lacks b',' m prefix refl refl refl;
      },
      starts_in_of_Lacks b'@' (cidr m prefix) (cidr-Lacks b'@' m prefix refl refl refl),
    )

AreNormal-self : {parts ws : List Text} → AreNormal parts ws → AreNormal ws ws
AreNormal-self done = done
AreNormal-self (more {part} r e n) =
    more (record r { raw = r.normalized; ip = r.network_ip; was_adjusted = false })
      (parse-normalized plain_options part r e) (AreNormal-self n)

AreNormal-All-IsPart : {parts ws : List Text} → AreNormal parts ws → All IsPart ws
AreNormal-All-IsPart done = tt
AreNormal-All-IsPart (more {part} r e n) = ((normalized-IsPart part r e).0, AreNormal-All-IsPart n)

AreNormal-no_alias : {parts ws : List Text} → AreNormal parts ws → keep (starts_in b'@') ws ≡ []
AreNormal-no_alias done = refl
AreNormal-no_alias (more {part} r e n) = rw (normalized-IsPart part r e).1 (AreNormal-no_alias n)

AreNormal-length : {parts ws : List Text} → AreNormal parts ws → length ws ≡ length parts
AreNormal-length done = refl
AreNormal-length (more r e n) = ap suc (AreNormal-length n)

-- The two shapes of a field that is not blank: one alias, or addresses.
pub data Accepts (lists : List Alias) : List Text → Text → Type 0 where
  an_alias :
      {raw : Text}
      → starts_in b'@' raw ≡ true
      → check_alias lists raw ≡ ok (some raw)
      → Accepts lists (raw ∷ []) raw
  addresses :
      {parts : List Text} (ws : List Text) {t : Text}
      → length parts ≤ 64
      → keep (starts_in b'@') parts ≡ []
      → AreNormal parts ws
      → IsDistinct ws
      → t ≡ join (codes ", ") ws
      → Accepts lists parts t

pub check_alias-eq :
    (lists : List Alias) (raw : Text) (o : Option Text)
    → check_alias lists raw ≡ ok o
    → o ≡ some raw
unfolding check_alias
check_alias-eq lists raw o h = ground arith

check_parts-alias :
    (lists : List Alias) (parts : List Text) (t : Text)
    → is_nil (keep (starts_in b'@') parts) ≡ false
    → length parts ≤ 1
    → check_alias lists (get_or parts 0 []) ≡ ok (some t)
    → Accepts lists parts t
check_parts-alias lists [] t some_alias l h = cc
check_parts-alias lists (raw ∷ []) t some_alias l h =
    let e : t ≡ raw = ground (arith, check_alias-eq lists raw (some t) h) in
    rw e (an_alias (ground arith) (rw e at h))
check_parts-alias lists (a ∷ b ∷ parts) t some_alias l h = absurd (omega arith)

check_parts-addresses :
    (lists : List Alias) (parts : List Text) (t : Text)
    → is_nil (keep (starts_in b'@') parts) ≡ true
    → length parts ≤ 64
    → (check_addresses [] parts >>= λ ws. ok (some (join (codes ", ") ws))) ≡ ok (some t)
    → Accepts lists parts t
check_parts-addresses lists parts t no_alias l h =
    let (ws, e, h') = >>=-eq-ok (check_addresses [] parts) _ h in
    let (normal, distinct) = (check_addresses_iff parts ws).0 e in
    addresses ws l (nil_of_is_nil (keep (starts_in b'@') parts) no_alias) normal distinct
      (ground arith)
  where
    nil_of_is_nil : (ps : List Text) → is_nil ps ≡ true → ps ≡ []
    nil_of_is_nil [] h = refl
    nil_of_is_nil (p ∷ ps) h = cc

check_parts-Accepts :
    (lists : List Alias) (parts : List Text) (t : Text)
    → check_parts lists parts ≡ ok (some t)
    → Accepts lists parts t
unfolding check_parts
check_parts-Accepts lists parts t h = elim (Bool-cases (is_nil (keep (starts_in b'@') parts))) [
  | inl none_there ↦ check_parts-addresses lists parts t none_there (ground arith) (ground arith)
  | inr some_alias ↦ check_parts-alias lists parts t some_alias (ground arith) (ground arith)
]

check_parts_of_Accepts :
    {lists : List Alias} {parts : List Text} {t : Text}
    → Accepts lists parts t
    → check_parts lists parts ≡ ok (some t)
unfolding check_parts
check_parts_of_Accepts (an_alias h k) = ground arith
check_parts_of_Accepts (addresses {parts} ws l no_alias normal distinct e) =
    ground (arith, (check_addresses_iff parts ws).1 (normal, distinct))

-- A field that is trimmed, with parts that are accepted as they stand.
abbrev StandsFor : List Alias → Text → Type 0
StandsFor lists t = IsTrimmed t × (is_nil (parts_of t) ≡ false) × Accepts lists (parts_of t) t

alias-StandsFor :
    (lists : List Alias) (raw : Text)
    → IsPart raw
    → starts_in b'@' raw ≡ true
    → check_alias lists raw ≡ ok (some raw)
    → StandsFor lists raw
alias-StandsFor lists raw p h k =
    let again : parts_of raw ≡ raw ∷ [] = unfold join in parts_of-join (raw ∷ []) (p, tt) in
    rw again ((p.trimmed, p.full), refl, an_alias h k)

All-IsTrimmed : (ws : List Text) → All IsPart ws → All IsTrimmed ws
All-IsTrimmed [] h = tt
All-IsTrimmed (w ∷ ws) (p, ps) = ((p.trimmed, p.full), All-IsTrimmed ws ps)

addresses-StandsFor :
    (lists : List Alias) (parts ws : List Text)
    → is_nil parts ≡ false
    → length parts ≤ 64
    → AreNormal parts ws
    → IsDistinct ws
    → StandsFor lists (join (codes ", ") ws)
addresses-StandsFor lists [] [] f l n d = cc
addresses-StandsFor lists (p ∷ parts) [] f l n d = absurd (omega (arith, AreNormal-length n))
addresses-StandsFor lists parts (w ∷ ws) f l n d =
    let parts_are = AreNormal-All-IsPart n in
    rw (parts_of-join_spaced (w ∷ ws) parts_are) (
      join-IsTrimmed (codes ", ") w ws (All-IsTrimmed (w ∷ ws) parts_are),
      refl,
      addresses (w ∷ ws) (omega (arith, AreNormal-length n)) (AreNormal-no_alias n)
          (AreNormal-self n) d refl,
    )

Accepts-StandsFor :
    {lists : List Alias} {parts : List Text} {t : Text}
    → Accepts lists parts t
    → All IsPart parts
    → is_nil parts ≡ false
    → StandsFor lists t
Accepts-StandsFor {lists} (an_alias {raw} h k) ps f = alias-StandsFor lists raw ps.0 h k
Accepts-StandsFor {lists} (addresses {parts} ws l no_alias normal distinct e) ps f =
    rw e (addresses-StandsFor lists parts ws f l normal distinct)

full_of_parts : (s : Text) → is_nil (parts_of s) ≡ false → is_nil s ≡ false
full_of_parts [] h = unfold parts_of split_on trim in h
full_of_parts (c ∷ s) h = refl

-- An address field with a normal form holds, after trimming, either one alias that is accepted,
-- which is its own normal form, or at most 64 addresses with distinct normal forms, and its normal
-- form is those joined by ", "; every such field is accepted.
pub validate_address_input_iff :
    (lists : List Alias) (value t : Text)
    → (validate_address_input lists value ≡ ok (some t))
      ↔ ((is_nil (parts_of (trim value)) ≡ false) × Accepts lists (parts_of (trim value)) t)
unfolding validate_address_input
validate_address_input_iff lists value t = (
  λ h. (ground arith, check_parts-Accepts lists (parts_of (trim value)) t (ground arith)),
  λ both.
      let full = full_of_parts (trim value) both.0 in
      ground (arith, check_parts_of_Accepts both.1, full, not-nil_of_trim value full),
)

-- Validating the normal form again accepts it and leaves it as it is.
pub validate_address_input-stable :
    (lists : List Alias) (value t : Text)
    → validate_address_input lists value ≡ ok (some t)
    → validate_address_input lists t ≡ ok (some t)
validate_address_input-stable lists value t h =
    let (full, a) = (validate_address_input_iff lists value t).0 h in
    let (trimmed, full', a') = Accepts-StandsFor a (parts_of-IsPart (trim value)) full in
    (validate_address_input_iff lists t t).1 (rw trimmed.0 (full', a'))
