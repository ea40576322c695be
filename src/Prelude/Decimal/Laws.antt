-- ===== src/Prelude/Decimal/Laws.antt =====
-- Decimal numerals: printing and reading.
use Prim.Native.Nat.{ℕ, zero, suc, ◌+◌, ◌-◌, ◌*◌, ◌/◌, ◌%◌, ◌≤◌, ◌<◌}
use mathlib.Core.Path.{◌≡◌, refl, sym, ◌∙◌, ap₂}
use mathlib.Core.Bool.{true, false}
use mathlib.Core.List.{[], ◌∷◌, ◌++◌, append-nil, append_assoc}
use mathlib.Core.Logic.{inl, inr}
use native.Mathlib.Omega.{arith}
use networkat_cloud_web_app.Prelude.Tests.{ltb, Bool-cases}
use networkat_cloud_web_app.Prelude.Lists.{all, all-append}
use networkat_cloud_web_app.Prelude.Text.{Text, is_digit}
use networkat_cloud_web_app.Prelude.Decimal.{
  show_from, show, value_from, parse_int, is_digits, has_leading_zero,
}

-- One step of printing.
show_from-small : (f n : ℕ) (out : Text) → n < f → n < 10 → show_from f n out ≡ (b'0' + n) ∷ out
unfolding show_from
show_from-small zero n out h k = absurd (omega arith)
show_from-small (suc f) n out h k = ground arith

show_from-large :
    (f n : ℕ) (out : Text)
    → 10 ≤ n
    → show_from (suc f) n out ≡ show_from f (n / 10) ((b'0' + n % 10) ∷ out)
unfolding show_from
show_from-large f n out h = ground arith

-- Enough fuel is as good as any other.
show_from_fuel : (f g n : ℕ) (out : Text) → n < f → n < g → show_from f n out ≡ show_from g n out
unfolding show_from
show_from_fuel zero g n out h k = absurd (omega arith)
show_from_fuel (suc f) zero n out h k = absurd (omega arith)
show_from_fuel (suc f) (suc g) n out h k =
    ground (arith, show_from_fuel f g (n / 10) ((b'0' + n % 10) ∷ out))

-- Printing the value of some digits behind a number that is not 0.
show-value_from :
    (v : ℕ) (s out : Text) (f g : ℕ)
    → 0 < v
    → all is_digit s ≡ true
    → value_from v s < f
    → v < g
    → show_from f (value_from v s) out ≡ show_from g v (s ++ out)
unfolding value_from
show-value_from v [] out f g p d h k = show_from_fuel f g v out h k
show-value_from v (c ∷ s) out f g p d h k =
    show-value_from (10 * v + (c - b'0')) s out f (suc (10 * v + (c - b'0'))) (omega arith)
      (ground arith) h (omega arith)
    ∙ step
  where
    digit : (b'0' ≤ c) × (c ≤ b'9')
    digit = ground arith

    step :
        show_from (suc (10 * v + (c - b'0'))) (10 * v + (c - b'0')) (s ++ out)
        ≡ show_from g v (c ∷ (s ++ out))
    step =
        show_from-large (10 * v + (c - b'0')) (10 * v + (c - b'0')) (s ++ out) (omega arith)
        ∙ ap₂ (λ n e. show_from (10 * v + (c - b'0')) n (e ∷ (s ++ out))) (omega (arith, digit))
            (omega (arith, digit))
        ∙ show_from_fuel (10 * v + (c - b'0')) g v (c ∷ (s ++ out)) (omega arith) k

pub show-parse_int :
    (s : Text) → is_digits s ≡ true → has_leading_zero s ≡ false → show (parse_int s) ≡ s
unfolding show value_from
show-parse_int [] d z = cc
show-parse_int (c ∷ []) d z = ground arith
show-parse_int (c ∷ e ∷ s) d z =
    show-value_from (0 + (c - b'0')) (e ∷ s) [] (suc (value_from (0 + (c - b'0')) (e ∷ s)))
      (suc (0 + (c - b'0'))) (ground arith) (ground arith) (omega arith) (omega arith)
    ∙ show_from-small (suc (0 + (c - b'0'))) (0 + (c - b'0')) ((e ∷ s) ++ []) (omega arith)
        (ground arith)
    ∙ ap₂ ◌∷◌ (ground arith) (append-nil (e ∷ s))

-- What printing gives: digits, no leading zero, and the number back.
value_from-append : (v : ℕ) (s t : Text) → value_from v (s ++ t) ≡ value_from (value_from v s) t
unfolding value_from
value_from-append v [] t = refl
value_from-append v (c ∷ s) t = value_from-append (10 * v + (c - b'0')) s t

-- Printing puts digits in front of `out`, which read back as `n`.
abbrev Prints : ℕ → Text → Text → Type 0
Prints n out s =
    (w : Text) × (s ≡ w ++ out)
    × (is_digits w ≡ true)
    × (has_leading_zero w ≡ false)
    × (parse_int w ≡ n)

-- A further digit behind a numeral that is not 0.
more_digits :
    (w : Text) (d : ℕ)
    → is_digits w ≡ true
    → has_leading_zero w ≡ false
    → 0 < parse_int w
    → d < 10
    → (is_digits (w ++ (b'0' + d) ∷ []) ≡ true)
      × (has_leading_zero (w ++ (b'0' + d) ∷ []) ≡ false)
      × (parse_int (w ++ (b'0' + d) ∷ []) ≡ 10 * parse_int w + d)
unfolding value_from
more_digits [] d digits z p h = cc
more_digits (c ∷ []) d digits z p h = ground arith
more_digits (c ∷ e ∷ w) d digits z p h = (
  ground (arith, all-append is_digit w ((b'0' + d) ∷ [])),
  ground arith,
  omega (arith, value_from-append (parse_int (c ∷ e ∷ [])) w ((b'0' + d) ∷ [])),
)

show_from-Prints : (f n : ℕ) (out : Text) → n < f → Prints n out (show_from f n out)
show_from-Prints zero n out h = absurd (omega arith)
show_from-Prints (suc f) n out h = elim (Bool-cases (ltb n 10)) [
  | inl small ↦ (
    (b'0' + n) ∷ [],
    show_from-small (suc f) n out h (ground arith),
    ground arith,
    ground arith,
    unfold value_from in omega arith,
  )
  | inr large ↦
      let (w, e, digits, zeros, number) =
        show_from-Prints f (n / 10) ((b'0' + n % 10) ∷ out) (ground arith) in
      let (digits', zeros', number') =
        more_digits w (n % 10) digits zeros (ground arith) (omega arith) in
      (
        w ++ (b'0' + n % 10) ∷ [],
        show_from-large f n out (ground arith)
            ∙ e
            ∙ sym (append_assoc w ((b'0' + n % 10) ∷ []) out),
        digits',
        zeros',
        omega arith,
      )
]

show-Prints : (n : ℕ) → Prints n [] (show n)
unfolding show
show-Prints n = show_from-Prints (suc n) n [] (omega arith)

-- A printed number is a numeral without a leading zero, and reads back.
pub show-IsNumeral :
    (n : ℕ)
    → (is_digits (show n) ≡ true) × (has_leading_zero (show n) ≡ false) × (parse_int (show n) ≡ n)
show-IsNumeral n =
    let (w, e, digits, zeros, number) = show-Prints n in
    let same : show n ≡ w = e ∙ append-nil w in rw same (digits, zeros, number)
