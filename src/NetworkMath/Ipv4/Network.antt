-- ===== src/NetworkMath/Ipv4/Network.antt =====
-- `parseAndValidateIPv4`: the arithmetic of network addresses, on 32-bit numbers.
use native.Mathlib.Nat.{
  div-mul-le_self, lt-div-mul-add, mul-div_cancel, mul-mod_left, div-lt_iff_lt-mul,
}
use networkat_cloud_web_app.Prelude.{
  ℕ, zero, suc, ◌+◌, ◌-◌, ◌*◌, ◌/◌, ◌%◌, ◌^◌, ◌≤◌, ◌<◌, ◌≡◌, refl, ◌∙◌, ap, true, [], ◌∷◌, ◌++◌,
  arith, ◌==◌, ◌||◌, ==_iff, bit_and, all_below, all_below_sound,
}
use networkat_cloud_web_app.Prelude.Text.{Text}
use networkat_cloud_web_app.Prelude.Decimal.{show}
use networkat_cloud_web_app.Prelude.Word.{shr}
use networkat_cloud_web_app.Prelude.Word.Laws.{
  ones, bit_and-high, bit_and-zero, bit_and-255, pow_two_pos,
}
use networkat_cloud_web_app.NetworkMath.Ipv4.{ip32_of, netmask32, net32_of, dotted}

-- An address as the number that its four octets stand for.
abbrev pub number : ℕ → ℕ → ℕ → ℕ → ℕ
number a b c d = 16777216 * a + 65536 * b + 256 * c + d

pub ip32_of_lem :
    (a b c d : ℕ)
    → a ≤ 255
    → b ≤ 255
    → c ≤ 255
    → d ≤ 255
    → ip32_of (a ∷ b ∷ c ∷ d ∷ []) ≡ number a b c d
unfolding ip32_of
ip32_of_lem a b c d ha hb hc hd = omega arith

-- For a prefix that is not 0 the mask is that many ones, and zeros below.
netmask32_table : all_below 33 (λ p. p == 0 || netmask32 p == ones p * 2 ^ (32 - p)) ≡ true
unfolding all_below netmask32 ones
netmask32_table = refl

netmask32_lem : (p : ℕ) → 0 < p → p ≤ 32 → netmask32 p ≡ ones p * 2 ^ (32 - p)
netmask32_lem p h k = ground (
  arith,
  all_below_sound 33 (λ p. p == 0 || netmask32 p == ones p * 2 ^ (32 - p)) netmask32_table p,
)

powers_table : all_below 33 (λ p. 2 ^ p * 2 ^ (32 - p) == 2 ^ 32) ≡ true
unfolding all_below
powers_table = refl

powers : (p : ℕ) → p ≤ 32 → 2 ^ p * 2 ^ (32 - p) ≡ 2 ^ 32
powers p h =
    (==_iff _ _).0
      (all_below_sound 33 (λ p. 2 ^ p * 2 ^ (32 - p) == 2 ^ 32) powers_table p (omega arith))

-- What the masking computes: the multiple of the block size at or below the address.
pub net32_of_lem : (x p : ℕ) → x < 2 ^ 32 → p ≤ 32 → net32_of x p ≡ x / 2 ^ (32 - p) * 2 ^ (32 - p)
unfolding net32_of
net32_of_lem x zero h k = unfold netmask32 in omega (arith, bit_and-zero x x (omega arith))
net32_of_lem x (suc p) h k =
    ap (bit_and x) (netmask32_lem (suc p) (omega arith) k)
    ∙ bit_and-high (32 - suc p) (suc p) x
        ((div-lt_iff_lt-mul (pow_two_pos (32 - suc p))).1 (omega (arith, powers (suc p) k)))

-- The network address of an address is at or below it, less than one block away, and on a block
-- boundary: the lowest address of the block.
pub record IsNetwork (x p n : ℕ) : Type 0 where
  pub below : n ≤ x
  pub near : x < n + 2 ^ (32 - p)
  pub aligned : n % 2 ^ (32 - p) ≡ 0

pub net32_of-IsNetwork : (x p : ℕ) → x < 2 ^ 32 → p ≤ 32 → IsNetwork x p (net32_of x p)
net32_of-IsNetwork x p h k = rw (net32_of_lem x p h k) (record {
  below = div-mul-le_self x (2 ^ (32 - p));
  near = lt-div-mul-add {a = x} {b = 2 ^ (32 - p)} (pow_two_pos (32 - p));
  aligned = mul-mod_left (x / 2 ^ (32 - p)) (2 ^ (32 - p));
})

pub net32_of-lt : (x p : ℕ) → x < 2 ^ 32 → p ≤ 32 → net32_of x p < 2 ^ 32
net32_of-lt x p h k = omega (arith, (net32_of-IsNetwork x p h k).below)

-- Taking the network address again changes nothing.
pub net32_of-net32_of : (x p : ℕ) → x < 2 ^ 32 → p ≤ 32 → net32_of (net32_of x p) p ≡ net32_of x p
net32_of-net32_of x p h k =
    net32_of_lem (net32_of x p) p (net32_of-lt x p h k) k
    ∙ rw (net32_of_lem x p h k)
        (ap (λ t. t * 2 ^ (32 - p)) (mul-div_cancel (x / 2 ^ (32 - p)) (pow_two_pos (32 - p))))

-- Four numbers with dots between.
abbrev pub quad : ℕ → ℕ → ℕ → ℕ → Text
quad a b c d = show a ++ b'.' ∷ (show b ++ b'.' ∷ (show c ++ b'.' ∷ show d))

-- The dotted form of a number, octet by octet.
pub dotted-number :
    (a b c d : ℕ) → a ≤ 255 → b ≤ 255 → c ≤ 255 → d ≤ 255 → dotted (number a b c d) ≡ quad a b c d
unfolding dotted
dotted-number a b c d ha hb hc hd =
    let e₁ : shr (number a b c d) 24 % 256 ≡ a = omega arith in
    let e₂ : shr (number a b c d) 16 % 256 ≡ b = omega arith in
    let e₃ : shr (number a b c d) 8 % 256 ≡ c = omega arith in
    let e₄ : number a b c d % 256 ≡ d = omega arith in simp (bit_and-255, e₁, e₂, e₃, e₄)

-- Every 32-bit number is that of its four octets.
pub number_octets :
    (x : ℕ)
    → x < 2 ^ 32
    → (a b c d : ℕ) × (a ≤ 255) × (b ≤ 255) × (c ≤ 255) × (d ≤ 255) × (x ≡ number a b c d)
number_octets x h = (
  x / 2 ^ 24,
  x / 2 ^ 16 % 256,
  x / 2 ^ 8 % 256,
  x % 256,
  omega arith,
  omega arith,
  omega arith,
  omega arith,
  omega arith,
)
