-- ===== src/Prelude/Word.antt =====
-- 32-bit words of JavaScript's bit operators, as numbers below 2^32.
use Prim.Native.Nat.{ℕ, ◌*◌, ◌/◌, ◌%◌, ◌^◌, bit_and}
pub mod Laws

-- `(x << s) >>> 0`: the shift count is taken modulo 32
unfoldable pub shl : ℕ → ℕ → ℕ
shl x s = x * 2 ^ (s % 32) % 2 ^ 32

-- `(x & y) >>> 0` and `x >>> s`, on words
abbrev pub shr : ℕ → ℕ → ℕ
shr x s = x / 2 ^ s
