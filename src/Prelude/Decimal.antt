-- ===== src/Prelude/Decimal.antt =====
-- Decimal numerals: `String(n)`, and `parseInt(s, 10)` on a text of digits.
use Prim.Native.Nat.{ℕ, zero, suc, ◌+◌, ◌-◌, ◌*◌, ◌/◌, ◌%◌}
use mathlib.Core.Bool.{Bool, false, not, ◌&&◌}
use mathlib.Core.List.{[], ◌∷◌}
use networkat_cloud_web_app.Prelude.Tests.{ltb, ◌==◌, if◌then◌else◌}
use networkat_cloud_web_app.Prelude.Lists.{is_nil, all}
use networkat_cloud_web_app.Prelude.Text.{Text, is_digit}
pub mod Laws

-- The digits of `n` before `out`; more than `n` rounds of fuel are enough.
show_from : ℕ → ℕ → Text → Text
show_from zero n out = out
show_from (suc fuel) n out =
    let rest = show_from fuel (n / 10) ((b'0' + n % 10) ∷ out) in
    if ltb n 10 then (b'0' + n) ∷ out else rest

unfoldable pub show : ℕ → Text
unfolding show_from
show n = show_from (suc n) n []

unfoldable pub value_from : ℕ → Text → ℕ
value_from acc [] = acc
value_from acc (c ∷ s) = value_from (10 * acc + (c - b'0')) s

abbrev pub parse_int : Text → ℕ
parse_int = value_from 0

-- `/^\d+$/`
abbrev pub is_digits : Text → Bool
is_digits s = not (is_nil s) && all is_digit s

-- `s.length > 1 && s.startsWith('0')`
abbrev pub has_leading_zero : Text → Bool
has_leading_zero [] = false
has_leading_zero (c ∷ s) = not (is_nil s) && c == b'0'
