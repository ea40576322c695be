-- ===== src/Firewall/Addresses/Distinct.antt =====
-- `validateAddressInput`: the loop over the addresses, and duplicates.
use networkat_cloud_web_app.Prelude.{
  ℕ, ◌≡◌, ◌≢◌, ◌↔◌, refl, ◌∙◌, Bool, true, false, Option, none, some, List, [], ◌∷◌, arith, ltb,
  all, all-append, All, ok, >>=-eq-ok, reject-eq-ok,
}
use networkat_cloud_web_app.Prelude.Text.{Text, lower, to_lower, is_digit}
use networkat_cloud_web_app.Prelude.Text.Laws.{text_eq_iff}
use networkat_cloud_web_app.Prelude.Decimal.{show}
use networkat_cloud_web_app.Prelude.Decimal.Laws.{show-IsNumeral}
use networkat_cloud_web_app.NetworkMath.Ipv4.{
  Ipv4, Ipv4Options, parse_and_validate_ipv4, plain_options,
}
use networkat_cloud_web_app.NetworkMath.Ipv4.Octets.{address}
use networkat_cloud_web_app.NetworkMath.Ipv4.Grammar.{
  cidr, block_start, parse_and_validate_ipv4_iff,
}
use networkat_cloud_web_app.Firewall.Addresses.{duplicate, as_address, member, check_addresses}

-- No capital letter stands in a normal form.
abbrev is_low : ℕ → Bool
is_low c = ltb c b'A'

digits-low : (s : Text) → all is_digit s ≡ true → all is_low s ≡ true
digits-low [] h = refl
digits-low (c ∷ s) h = ground (arith, digits-low s)

show-low : (n : ℕ) → all is_low (show n) ≡ true
show-low n = digits-low (show n) (ground (arith, show-IsNumeral n))

cidr-low : (n : ℕ) (prefix : Option ℕ) → all is_low (cidr n prefix) ≡ true
unfolding cidr address
cidr-low n none = grind (arith, all-append, show-low)
cidr-low n (some p) = grind (arith, all-append, show-low)

to_lower-low : (s : Text) → all is_low s ≡ true → to_lower s ≡ s
unfolding to_lower
to_lower-low [] h = refl
to_lower-low (c ∷ s) h = ground (arith, to_lower-low s)

pub to_lower-normalized :
    (options : Ipv4Options) (s : Text) (r : Ipv4)
    → parse_and_validate_ipv4 options (some s) ≡ ok r
    → to_lower r.normalized ≡ r.normalized
to_lower-normalized options s r e =
    let (n, prefix, d, r_is) = (parse_and_validate_ipv4_iff options s r).0 e in
    rw r_is (to_lower-low _ (cidr-low (block_start options n prefix) prefix))

low_of_to_lower : (t : Text) → all is_low (to_lower t) ≡ true → t ≡ to_lower t
unfolding to_lower lower
low_of_to_lower [] h = refl
low_of_to_lower (c ∷ t) h = ground (arith, low_of_to_lower t)

-- No other text becomes a normal form in lower case.
pub to_lower-normalized_inj :
    (options : Ipv4Options) (s t : Text) (r : Ipv4)
    → parse_and_validate_ipv4 options (some s) ≡ ok r
    → to_lower t ≡ r.normalized
    → t ≡ r.normalized
to_lower-normalized_inj options s t r e same =
    let (n, prefix, d, r_is) = (parse_and_validate_ipv4_iff options s r).0 e in
    let low : all is_low r.normalized ≡ true =
      rw r_is (cidr-low (block_start options n prefix) prefix) in
    low_of_to_lower t (rw same low) ∙ same

-- No two members of a list are the same.
abbrev pub IsDistinct : List Text → Type 0
IsDistinct [] = Unit
IsDistinct (w ∷ ws) = All (λ v. w ≢ v) ws × IsDistinct ws

-- One round, taken apart.
pub record Round (seen : List Text) (part : Text) (parts ws : List Text) : Type 0 where
  pub ipv4 : Ipv4
  pub rest : List Text
  pub parsed : parse_and_validate_ipv4 plain_options (some part) ≡ ok ipv4
  pub fresh : member ipv4.normalized seen ≡ false
  pub later : check_addresses (ipv4.normalized ∷ seen) parts ≡ ok rest
  pub result : ws ≡ ipv4.normalized ∷ rest

pub check_addresses-Round :
    (seen : List Text) (part : Text) (parts ws : List Text)
    → check_addresses seen (part ∷ parts) ≡ ok ws
    → Round seen part parts ws
unfolding check_addresses
check_addresses-Round seen part parts ws h =
    let (r, e, h₁) =
      >>=-eq-ok (as_address (parse_and_validate_ipv4 plain_options (some part))) _ h in
    let parsed : parse_and_validate_ipv4 plain_options (some part) ≡ ok r = ground arith in
    let low = to_lower-normalized plain_options part r parsed in
    let (fresh, h₂) = reject-eq-ok (member (to_lower r.normalized) seen) duplicate h₁ in
    let (rest, e', h₃) = >>=-eq-ok (check_addresses (to_lower r.normalized ∷ seen) parts) _ h₂ in
    record {
      ipv4 = r;
      rest = rest;
      parsed = parsed;
      fresh = rw low at fresh;
      later = rw low at e';
      result = ground arith;
    }

pub check_addresses_of_Round :
    (seen : List Text) (part : Text) (parts ws : List Text)
    → Round seen part parts ws
    → check_addresses seen (part ∷ parts) ≡ ok ws
unfolding check_addresses
check_addresses_of_Round seen part parts ws r =
    rw
      (r.parsed, to_lower-normalized plain_options part r.ipv4 r.parsed, r.fresh, r.later, r.result)

abbrev pub Fresh : List Text → Text → Type 0
Fresh seen w = member w seen ≡ false

Fresh-before : (w : Text) (seen ws : List Text) → All (Fresh (w ∷ seen)) ws → All (Fresh seen) ws
Fresh-before w seen [] h = tt
Fresh-before w seen (v ∷ ws) (h, hs) = (ground arith, Fresh-before w seen ws hs)

Fresh-apart : (w : Text) (seen ws : List Text) → All (Fresh (w ∷ seen)) ws → All (λ v. w ≢ v) ws
Fresh-apart w seen [] h = tt
Fresh-apart w seen (v ∷ ws) (h, hs) =
    ((λ e. ground (arith, text_eq_iff v w)), Fresh-apart w seen ws hs)

check_addresses-Fresh :
    (seen parts ws : List Text)
    → check_addresses seen parts ≡ ok ws
    → All (Fresh seen) ws × IsDistinct ws
check_addresses-Fresh seen [] ws h =
    let e : [] ≡ ws = unfold check_addresses in ground arith in rw (← e) (tt, tt)
check_addresses-Fresh seen (part ∷ parts) ws h =
    let r = check_addresses-Round seen part parts ws h in
    let w = r.ipv4.normalized in
    let (fresh, distinct) = check_addresses-Fresh (w ∷ seen) parts r.rest r.later in
    rw r.result
      ((r.fresh, Fresh-before w seen r.rest fresh), (Fresh-apart w seen r.rest fresh, distinct))

Fresh-after :
    (w : Text) (seen ws : List Text)
    → All (Fresh seen) ws
    → All (λ v. w ≢ v) ws
    → All (Fresh (w ∷ seen)) ws
Fresh-after w seen [] _ _ = tt
Fresh-after w seen (v ∷ ws) (f, fs) (d, ds) =
    (ground (arith, text_eq_iff v w, λ (e : w ≡ v). d e), Fresh-after w seen ws fs ds)

pub All-Fresh_nil : (ws : List Text) → All (Fresh []) ws
All-Fresh_nil [] = tt
All-Fresh_nil (w ∷ ws) = (refl, All-Fresh_nil ws)

-- Each text is new, after those seen and those before it.
abbrev pub FreshChain : List Text → List Text → Type 0
FreshChain seen [] = Unit
FreshChain seen (w ∷ ws) = (member w seen ≡ false) × FreshChain (w ∷ seen) ws

-- A chain of texts that are new is a list without duplicates.
pub FreshChain-IsDistinct :
    (seen ws : List Text) → FreshChain seen ws ↔ (All (Fresh seen) ws × IsDistinct ws)
FreshChain-IsDistinct seen [] = (λ _. (tt, tt), λ _. tt)
FreshChain-IsDistinct seen (w ∷ ws) =
    let both = FreshChain-IsDistinct (w ∷ seen) ws in
    (
      λ (h, hs).
          (let (fresh, distinct) = both.0 hs in
            ((h, Fresh-before w seen ws fresh), (Fresh-apart w seen ws fresh, distinct))),
      λ ((h, hs), (d, ds)). (h, both.1 (Fresh-after w seen ws hs d, ds)),
    )

-- The texts are the normal forms of the parts, in order.
pub data AreNormal : List Text → List Text → Type 0 where
  done : AreNormal [] []
  more :
      {part : Text} {parts ws : List Text} (r : Ipv4)
      → parse_and_validate_ipv4 plain_options (some part) ≡ ok r
      → AreNormal parts ws
      → AreNormal (part ∷ parts) (r.normalized ∷ ws)

check_addresses-AreNormal :
    (seen parts ws : List Text) → check_addresses seen parts ≡ ok ws → AreNormal parts ws
check_addresses-AreNormal seen [] ws h =
    let e : [] ≡ ws = unfold check_addresses in ground arith in rw (← e) done
check_addresses-AreNormal seen (part ∷ parts) ws h =
    let r = check_addresses-Round seen part parts ws h in
    rw r.result (
      more r.ipv4 r.parsed
        (check_addresses-AreNormal (r.ipv4.normalized ∷ seen) parts r.rest r.later))

check_addresses_complete :
    {parts ws : List Text} (seen : List Text)
    → AreNormal parts ws
    → All (Fresh seen) ws
    → IsDistinct ws
    → check_addresses seen parts ≡ ok ws
check_addresses_complete seen done f d = unfold check_addresses in refl
check_addresses_complete seen (more {part} {parts} {ws} r e n) (f, fs) (d, ds) =
    check_addresses_of_Round seen part parts (r.normalized ∷ ws) (record {
      ipv4 = r;
      rest = ws;
      parsed = e;
      fresh = f;
      later =
          check_addresses_complete (r.normalized ∷ seen) n (Fresh-after r.normalized seen ws fs d)
            ds;
      result = refl;
    })

-- The loop succeeds exactly when every part is an address and no two normal forms are the same;
-- its result is the normal forms in order.
pub check_addresses_iff :
    (parts ws : List Text)
    → (check_addresses [] parts ≡ ok ws) ↔ (AreNormal parts ws × IsDistinct ws)
check_addresses_iff parts ws = (
  λ h. (check_addresses-AreNormal [] parts ws h, (check_addresses-Fresh [] parts ws h).1),
  λ both. check_addresses_complete [] both.0 (All-Fresh_nil ws) both.1,
)
