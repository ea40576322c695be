-- ===== src/Prelude/Word/Laws.antt =====
-- `bit_and` with a mask of high ones, or of eight low ones, by the recursion on binary digits.
use Prim.Native.Nat.{
  ℕ, zero, suc, ◌+◌, ◌*◌, ◌/◌, ◌%◌, ◌^◌, ◌≤◌, ◌<◌, min, bit_and, digits, bit_and-bitwise,
}
use mathlib.Core.Path.{◌≡◌, refl, ap, ◌≡⟨◌⟩◌, ◌∎}
use native.Mathlib.Omega.{arith}
use native.Mathlib.Nat.{pow-suc, div-div-eq-div-mul, mul-one, div-one}

-- The definition that the native operation stands for, at any fuel that covers the first word.
abbrev by_digits : ℕ → ℕ → ℕ → ℕ
by_digits fuel x y = digits (λ _. zero) min fuel x y

by_digits_fuel : (f g x y : ℕ) → x ≤ f → x ≤ g → by_digits f x y ≡ by_digits g x y
by_digits_fuel zero zero x y h k = refl
by_digits_fuel zero (suc g) zero y h k = refl
by_digits_fuel zero (suc g) (suc x) y h k = absurd (omega arith)
by_digits_fuel (suc f) zero zero y h k = refl
by_digits_fuel (suc f) zero (suc x) y h k = absurd (omega arith)
by_digits_fuel (suc f) (suc g) zero y h k = refl
by_digits_fuel (suc f) (suc g) (suc x) y h k =
    omega (arith, by_digits_fuel f g (suc x / 2) (y / 2) (omega arith) (omega arith))

bit_and-zero_left : (y : ℕ) → bit_and 0 y ≡ 0
bit_and-zero_left y = bit_and-bitwise 0 y

-- The lowest digit, and the rest.
bit_and_halves : (x y : ℕ) → bit_and x y ≡ 2 * bit_and (x / 2) (y / 2) + min (x % 2) (y % 2)
bit_and_halves zero y = omega (arith, bit_and-zero_left y, bit_and-zero_left (y / 2))
bit_and_halves (suc x) y = omega (
  arith,
  bit_and-bitwise (suc x) y,
  bit_and-bitwise (suc x / 2) (y / 2),
  by_digits_fuel x (suc x / 2) (suc x / 2) (y / 2) (omega arith) (omega arith),
)

bit_and_even : (x m : ℕ) → bit_and x (2 * m) ≡ 2 * bit_and (x / 2) m
bit_and_even x m = omega (
  arith,
  bit_and_halves x (2 * m),
  ap (bit_and (x / 2)) (let e : 2 * m / 2 ≡ m = omega arith in e),
)

bit_and_odd : (x m : ℕ) → bit_and x (2 * m + 1) ≡ 2 * bit_and (x / 2) m + x % 2
bit_and_odd x m = omega (
  arith,
  bit_and_halves x (2 * m + 1),
  ap (bit_and (x / 2)) (let e : (2 * m + 1) / 2 ≡ m = omega arith in e),
)

pub bit_and-zero : (n x : ℕ) → x ≤ n → bit_and x 0 ≡ 0
bit_and-zero zero zero h = bit_and-zero_left 0
bit_and-zero zero (suc x) h = absurd (omega arith)
bit_and-zero (suc n) x h = omega (arith, bit_and_even x 0, bit_and-zero n (x / 2) (omega arith))

-- `w` ones.
unfoldable pub ones : ℕ → ℕ
ones zero = 0
ones (suc w) = 2 * ones w + 1

bit_and-ones : (w x : ℕ) → x < 2 ^ w → bit_and x (ones w) ≡ x
unfolding ones
bit_and-ones zero x h = omega (arith, bit_and-zero x x)
bit_and-ones (suc w) x h =
    omega (arith, bit_and_odd x (ones w), bit_and-ones w (x / 2) (omega (arith, pow-suc 2 w)))

bit_and_scaled : (k x m : ℕ) → bit_and x (m * 2 ^ k) ≡ bit_and (x / 2 ^ k) m * 2 ^ k
bit_and_scaled zero x m = simp (mul-one, div-one)
bit_and_scaled (suc k) x m =
    bit_and x (m * 2 ^ suc k)
    ≡⟨ ap (bit_and x) (grind (arith, pow-suc 2 k)) ⟩ bit_and x (2 * (m * 2 ^ k))
    ≡⟨ bit_and_even x (m * 2 ^ k) ⟩ 2 * bit_and (x / 2) (m * 2 ^ k)
    ≡⟨ ap (λ t. 2 * t) (bit_and_scaled k (x / 2) m) ⟩ 2 * (bit_and (x / 2 / 2 ^ k) m * 2 ^ k)
    ≡⟨ ap (λ t. 2 * (bit_and t m * 2 ^ k)) (div-div-eq-div-mul x 2 (2 ^ k)) ⟩
      2 * (bit_and (x / (2 * 2 ^ k)) m * 2 ^ k)
    ≡⟨ ap (λ t. 2 * (bit_and (x / t) m * 2 ^ k)) (omega (arith, pow-suc 2 k)) ⟩
      2 * (bit_and (x / 2 ^ suc k) m * 2 ^ k)
    ≡⟨ grind (arith, pow-suc 2 k) ⟩ bit_and (x / 2 ^ suc k) m * 2 ^ suc k ∎

pub bit_and-high : (k w x : ℕ) → x / 2 ^ k < 2 ^ w → bit_and x (ones w * 2 ^ k) ≡ x / 2 ^ k * 2 ^ k
bit_and-high k w x h = rw (bit_and_scaled, bit_and-ones w (x / 2 ^ k) h)

-- Eight low ones keep the remainder.
pub bit_and-255 : (x : ℕ) → bit_and x 255 ≡ x % 256
bit_and-255 x = omega (
  arith,
  bit_and_odd x 127,
  bit_and_odd (x / 2) 63,
  bit_and_odd (x / 2 / 2) 31,
  bit_and_odd (x / 2 / 2 / 2) 15,
  bit_and_odd (x / 2 / 2 / 2 / 2) 7,
  bit_and_odd (x / 2 / 2 / 2 / 2 / 2) 3,
  bit_and_odd (x / 2 / 2 / 2 / 2 / 2 / 2) 1,
  bit_and_odd (x / 2 / 2 / 2 / 2 / 2 / 2 / 2) 0,
  bit_and-zero (x / 2 / 2 / 2 / 2 / 2 / 2 / 2 / 2) (x / 2 / 2 / 2 / 2 / 2 / 2 / 2 / 2)
      (omega arith),
)

pub pow_two_pos : (k : ℕ) → 0 < 2 ^ k
pow_two_pos zero = omega arith
pow_two_pos (suc k) = omega (arith, pow-suc 2 k, pow_two_pos k)
