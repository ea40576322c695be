-- ===== src/Prelude/ParseInt.antt =====
-- `parseInt(s)` with no radix: white space, a sign, "0x" for hexadecimal, and the longest run of
-- digits, whatever follows it.
use Prim.Native.Nat.{ℕ, zero, suc, ◌+◌, ◌-◌, ◌*◌, ◌/◌, ◌%◌, ◌^◌, ◌<◌}
use native.Mathlib.Omega.{arith}
use mathlib.Core.Path.{◌≡◌, refl}
use mathlib.Core.Bool.{Bool, true, not, ◌&&◌, ◌||◌}
use mathlib.Core.Option.{Option, none, some}
use mathlib.Core.List.{[], ◌∷◌}
use networkat_cloud_web_app.Prelude.Tests.{ltb, lt→ltb, leb, ◌==◌, if◌then◌else◌}
use networkat_cloud_web_app.Prelude.Text.{Text, codes, is_digit, trim_start}

-- A number without a fraction, or NaN; `minus n` is -n.
pub data JsInt : Type 0 where
  nan : JsInt
  plus minus : ℕ → JsInt

digit_value : ℕ → Option ℕ
digit_value c =
    if is_digit c
    then some (c - b'0')
    else if leb b'a' c && leb c b'f'
    then some (c - b'a' + 10)
    else if leb b'A' c && leb c b'F'
    then some (c - b'A' + 10)
    else none

-- The number read so far is `none` before the first digit.
read_digits : ℕ → Option ℕ → Text → Option ℕ
read_digits radix acc [] = acc
read_digits radix acc (c ∷ s) = elim (digit_value c) [
  | none ↦ acc
  | some d ↦
      let so_far : ℕ = elim acc [ none ↦ 0 | some n ↦ n ] in
      let rest = read_digits radix (some (so_far * radix + d)) s in
      if ltb d radix then rest else acc
]

read_radix : Text → Option ℕ
unfolding read_digits digit_value
read_radix [] = none
read_radix (c ∷ []) = read_digits 10 none (c ∷ [])
read_radix (c ∷ d ∷ s) =
    if c == b'0' && (d == b'x' || d == b'X')
    then read_digits 16 none s
    else read_digits 10 none (c ∷ d ∷ s)

signed : (ℕ → JsInt) → Option ℕ → JsInt
signed sign none = nan
signed sign (some n) = sign n

read_signed : Text → JsInt
unfolding read_radix signed
read_signed [] = nan
read_signed (c ∷ s) =
    if c == b'-'
    then signed minus (read_radix s)
    else if c == b'+'
    then signed plus (read_radix s)
    else signed plus (read_radix (c ∷ s))

unfoldable pub parse_int_of : Text → JsInt
unfolding read_signed trim_start
parse_int_of s = read_signed (trim_start s)

-- `isNaN(x) || x < 1`
abbrev pub is_below_one : JsInt → Bool
is_below_one nan = true
is_below_one (plus n) = ltb n 1
is_below_one (minus n) = true

-- A number as a double, with 53 binary digits: `scale` is a power of two. Half is rounded to even.
abbrev rounded : ℕ → ℕ → ℕ
rounded scale n =
    let m = n / scale in
    let twice = 2 * (n % scale) in
    if ltb scale twice || twice == scale && not (m % 2 == 0) then (m + 1) * scale else m * scale

-- The least scale at which there are 53 digits; `rounds` are left before the double is infinite.
round_from : ℕ → ℕ → ℕ → Option ℕ
round_from zero scale n = none
round_from (suc rounds) scale n =
    let rest = round_from rounds (scale * 2) n in
    if ltb (n / scale) (2 ^ 53) then some (rounded scale n) else rest

-- `none` is Infinity, which a number from 2^1024 on is, and one that would be rounded to it.
unfoldable pub to_double : ℕ → Option ℕ
unfolding round_from
to_double n = elim (round_from 972 1 n) [
  | none ↦ none
  | some d ↦ if ltb d (2 ^ 1024) then some d else none
]

round_from-first : (rounds n : ℕ) → n < 2 ^ 53 → round_from (suc rounds) 1 n ≡ some n
unfolding round_from
round_from-first rounds n h =
    let small : ltb (n / 1) (2 ^ 53) ≡ true = ground (arith, h) in
    let same : rounded 1 n ≡ n = ground arith in rw small (rw same refl)

-- A number below 2^53 is a double.
pub to_double-exact : (n : ℕ) → n < 2 ^ 53 → to_double n ≡ some n
unfolding to_double
to_double-exact n h =
    let small : ltb n (2 ^ 1024) ≡ true = lt→ltb n (2 ^ 1024) (omega (arith, h)) in
    rw (to_double, round_from-first 971 n h, small) refl

odd_lost : to_double (2 ^ 53 + 1) ≡ some (2 ^ 53)
unfolding to_double
odd_lost = refl

hex_and_rest : parse_int_of (codes " 0x1fz") ≡ plus 31
unfolding parse_int_of
hex_and_rest = refl

negative : parse_int_of (codes "-7.5") ≡ minus 7
unfolding parse_int_of
negative = refl
