-- ===== src/NetworkMath/Ipv4/Octets.antt =====
-- `parseAndValidateIPv4`: octets and addresses, read and printed.
use networkat_cloud_web_app.Prelude.{
  ◌++◌, true, ℕ, ◌+◌, ◌^◌, ◌≤◌, ◌<◌, ◌≡◌, refl, sym, ◌∙◌, ap, false, not, List, [], ◌∷◌, arith,
  ◌==◌, length, is_nil, ok, any-append, is_nil-append_cons, length-map, All, map, ap₂, >>=-eq-ok,
  ◌/◌, ◌%◌,
}
use networkat_cloud_web_app.Prelude.Text.{Text, text_eq, split_on, join, is_digit, is_space}
use networkat_cloud_web_app.Prelude.Text.Laws.{
  text_eq_iff, Lacks, all-Lacks, includes-append, split_on-Lacks, split_on-append, join-split_on,
  NoSpace, digits-NoSpace,
}
use networkat_cloud_web_app.Prelude.Decimal.{is_digits, show, parse_int}
use networkat_cloud_web_app.Prelude.Decimal.Laws.{show-parse_int, show-IsNumeral}
use networkat_cloud_web_app.NetworkMath.Ipv4.{
  parse_octet, parse_octets, parse_mask, ip32_of, dotted,
}
use networkat_cloud_web_app.NetworkMath.Ipv4.Network.{number, ip32_of_lem, quad, dotted-number}

-- One octet.
parse_octet_sound : (i : ℕ) (s : Text) (v : ℕ) → parse_octet i s ≡ ok v → (s ≡ show v) × (v ≤ 255)
unfolding parse_octet
parse_octet_sound i s v h = ground (arith, show-parse_int s)

parse_octet-show : (i v : ℕ) → v ≤ 255 → parse_octet i (show v) ≡ ok v
unfolding parse_octet
parse_octet-show i v h = ground (arith, show-IsNumeral v)

pub parse_mask_sound : (s : Text) (p : ℕ) → parse_mask s ≡ ok p → (s ≡ show p) × (p ≤ 32)
unfolding parse_mask
parse_mask_sound s p h = ground (arith, show-parse_int s)

pub parse_mask-show : (p : ℕ) → p ≤ 32 → parse_mask (show p) ≡ ok p
unfolding parse_mask
parse_mask-show p h = ground (arith, show-IsNumeral p)

abbrev pub AllSmall : List ℕ → Type 0
AllSmall = All (λ v. v ≤ 255)

pub parse_octets_sound :
    (i : ℕ) (octets : List Text) (nums : List ℕ)
    → parse_octets i octets ≡ ok nums
    → (octets ≡ map show nums) × AllSmall nums
unfolding parse_octets
parse_octets_sound i [] nums h = ground arith
parse_octets_sound i (o ∷ os) nums h =
    let (v, e, h') = >>=-eq-ok (parse_octet i o) _ h in
    let (vs, e', h'') = >>=-eq-ok (parse_octets (i + 1) os) _ h' in
    let (shown, small) = parse_octet_sound i o v e in
    let (shown', small') = parse_octets_sound (i + 1) os vs e' in
    let same : v ∷ vs ≡ nums = cc in rw (← same) (ap₂ ◌∷◌ shown shown', (small, small'))

pub parse_octets-show :
    (i : ℕ) (nums : List ℕ) → AllSmall nums → parse_octets i (map show nums) ≡ ok nums
unfolding parse_octets
parse_octets-show i [] h = refl
parse_octets-show i (v ∷ vs) (p, h) = rw (parse_octet-show i v p, parse_octets-show (i + 1) vs h)

-- The text of an address, from the number of 32 bits.
unfoldable pub address : ℕ → Text
address n = quad (n / 2 ^ 24) (n / 2 ^ 16 % 256) (n / 2 ^ 8 % 256) (n % 256)

abbrev pub octets_of : ℕ → List ℕ
octets_of n = n / 2 ^ 24 ∷ n / 2 ^ 16 % 256 ∷ n / 2 ^ 8 % 256 ∷ n % 256 ∷ []

-- A printed number has no dot, slash, colon or white space.
pub show-Lacks : (c n : ℕ) → is_digit c ≡ false → Lacks c (show n)
show-Lacks c n h = all-Lacks is_digit c (show n) h (ground (arith, show-IsNumeral n))

pub address-Lacks : (c n : ℕ) → is_digit c ≡ false → (c == b'.') ≡ false → Lacks c (address n)
unfolding address
address-Lacks c n h k = grind (arith, includes-append, show-Lacks)

pub show-NoSpace : (n : ℕ) → NoSpace (show n)
show-NoSpace n = digits-NoSpace (show n) (ground (arith, show-IsNumeral n))

pub address-NoSpace : (n : ℕ) → NoSpace (address n)
unfolding address is_space
address-NoSpace n = grind (arith, any-append, show-NoSpace)

pub split_on-address : (n : ℕ) → split_on b'.' (address n) ≡ map show (octets_of n)
unfolding address
split_on-address n =
    rw (split_on-append b'.' (show (n / 2 ^ 24)) _ (show-Lacks b'.' (n / 2 ^ 24) refl)) (
      ap (◌∷◌ (show (n / 2 ^ 24))) (
        rw
          (split_on-append b'.' (show (n / 2 ^ 16 % 256)) _
            (show-Lacks b'.' (n / 2 ^ 16 % 256) refl))
          (ap (◌∷◌ (show (n / 2 ^ 16 % 256))) (
            rw
              (split_on-append b'.' (show (n / 2 ^ 8 % 256)) _
                (show-Lacks b'.' (n / 2 ^ 8 % 256) refl))
              (ap (◌∷◌ (show (n / 2 ^ 8 % 256)))
                (split_on-Lacks b'.' (show (n % 256)) (show-Lacks b'.' (n % 256) refl)))))))

pub four_octets :
    (nums : List ℕ)
    → length nums ≡ 4
    → AllSmall nums
    → (n : ℕ) × (n < 2 ^ 32) × (nums ≡ octets_of n) × (ip32_of nums ≡ n)
four_octets (a ∷ b ∷ c ∷ d ∷ []) l (ha, (hb, (hc, (hd, _)))) = (
  number a b c d,
  omega arith,
  ap₂ ◌∷◌ (omega arith)
      (ap₂ ◌∷◌ (omega arith) (ap₂ ◌∷◌ (omega arith) (ap₂ ◌∷◌ (omega arith) refl))),
  ip32_of_lem a b c d ha hb hc hd,
)
four_octets nums l h = absurd (omega arith)

pub octets-small : (n : ℕ) → n < 2 ^ 32 → AllSmall (octets_of n)
octets-small n h = omega arith

pub ip32_of-octets : (n : ℕ) → n < 2 ^ 32 → ip32_of (octets_of n) ≡ n
ip32_of-octets n h =
    ip32_of_lem (n / 2 ^ 24) (n / 2 ^ 16 % 256) (n / 2 ^ 8 % 256) (n % 256) (omega arith)
      (omega arith) (omega arith) (omega arith)
    ∙ omega arith

pub dotted-address : (n : ℕ) → n < 2 ^ 32 → dotted n ≡ address n
unfolding address
dotted-address n h =
    ap dotted (
      let e : n ≡ number (n / 2 ^ 24) (n / 2 ^ 16 % 256) (n / 2 ^ 8 % 256) (n % 256) =
        omega arith in
      e)
    ∙ dotted-number (n / 2 ^ 24) (n / 2 ^ 16 % 256) (n / 2 ^ 8 % 256) (n % 256) (omega arith)
        (omega arith) (omega arith) (omega arith)

-- Different numbers have different texts.
pub address_inj : (m n : ℕ) → m < 2 ^ 32 → n < 2 ^ 32 → address m ≡ address n → m ≡ n
address_inj m n h k e =
    let parts : map show (octets_of m) ≡ map show (octets_of n) =
      sym (split_on-address m) ∙ ap (split_on b'.') e ∙ split_on-address n in
    let nums : octets_of m ≡ octets_of n =
      sym (map_parse (octets_of m)) ∙ ap (map parse_int) parts ∙ map_parse (octets_of n) in
    sym (ip32_of-octets m h) ∙ ap ip32_of nums ∙ ip32_of-octets n k
  where
    map_parse : (nums : List ℕ) → map parse_int (map show nums) ≡ nums
    map_parse [] = refl
    map_parse (v ∷ vs) = ap₂ ◌∷◌ (show-IsNumeral v).2 (map_parse vs)

pub text_eq-address :
    (m n : ℕ) → m < 2 ^ 32 → n < 2 ^ 32 → text_eq (address m) (address n) ≡ (m == n)
text_eq-address m n h k = ground (arith, text_eq_iff (address m) (address n), address_inj m n h k)

pub address-ne-nil : (n : ℕ) → is_nil (address n) ≡ false
unfolding address
address-ne-nil n = is_nil-append_cons (show (n / 2 ^ 24)) b'.' _

-- Four parts that are octets make an address.
pub address_of_parts :
    (ip : Text) (nums : List ℕ)
    → not (length (split_on b'.' ip) == 4) ≡ false
    → parse_octets 0 (split_on b'.' ip) ≡ ok nums
    → (n : ℕ) × (n < 2 ^ 32) × (nums ≡ octets_of n) × (ip ≡ address n)
unfolding address join
address_of_parts ip nums four e =
    let (shown, small) = parse_octets_sound 0 (split_on b'.' ip) nums e in
    let count : length nums ≡ 4 =
      sym (length-map nums show) ∙ sym (ap length shown) ∙ ground arith in
    let (n, bound, same, _) = four_octets nums count small in
    (
      n,
      bound,
      same,
      sym (join-split_on b'.' ip) ∙ ap (join (b'.' ∷ [])) (shown ∙ ap (map show) same),
    )

digits-head :
    (w rest : Text)
    → is_digits w ≡ true
    → (c : ℕ) × (s : Text) × (w ++ rest ≡ c ∷ s) × (is_digit c ≡ true)
digits-head [] rest h = cc
digits-head (c ∷ w) rest h = (c, w ++ rest, refl, ground arith)

-- An address begins with a digit.
pub address-head : (n : ℕ) → (c : ℕ) × (s : Text) × (address n ≡ c ∷ s) × (is_digit c ≡ true)
unfolding address
address-head n =
    let (digits, _, _) = show-IsNumeral (n / 2 ^ 24) in digits-head (show (n / 2 ^ 24)) _ digits
