-- ===== src/Firewall/Order/Numbers.antt =====
-- Rule numbers and places: the text that two orders are compared by, and the count from 1.
use networkat_cloud_web_app.Prelude.{
  ℕ, zero, suc, ◌+◌, ◌≡◌, refl, sym, ◌∙◌, ap, ap₂, Bool, List, [], ◌∷◌, map, arith, get_or, length,
  All, ◌↔◌, ◌≢◌,
}
use networkat_cloud_web_app.Prelude.Text.{Text, codes, is_digit, join, split_on}
use networkat_cloud_web_app.Prelude.Text.Laws.{split_on-join, Lacks, all-Lacks}
use networkat_cloud_web_app.Prelude.Decimal.{show, is_digits, parse_int}
use networkat_cloud_web_app.Prelude.Decimal.Laws.{show-IsNumeral}
use networkat_cloud_web_app.Firewall.Order.{Rule, order_string, renumber_from}

abbrev pub ids : List Rule → List ℕ
ids = map (λ r. r.id)

-- What a move leaves alone.
abbrev pub kept : Rule → ℕ × Bool × Text
kept r = (r.id, r.enabled, r.body)

pub renumber_from-kept : (i : ℕ) (rs : List Rule) → map kept (renumber_from i rs) ≡ map kept rs
unfolding renumber_from
renumber_from-kept i [] = refl
renumber_from-kept i (r ∷ rs) = ap (λ l. kept r ∷ l) (renumber_from-kept (i + 1) rs)

pub renumber_from-ids : (i : ℕ) (rs : List Rule) → ids (renumber_from i rs) ≡ ids rs
unfolding renumber_from
renumber_from-ids i [] = refl
renumber_from-ids i (r ∷ rs) = ap (λ l. r.id ∷ l) (renumber_from-ids (i + 1) rs)

-- The numbers after `i`.
abbrev pub counted : ℕ → ℕ → List ℕ
counted i zero = []
counted i (suc n) = (i + 1) ∷ counted (i + 1) n

pub renumber_from-orders :
    (i : ℕ) (rs : List Rule) → map (λ r. r.order) (renumber_from i rs) ≡ counted i (length rs)
unfolding renumber_from
renumber_from-orders i [] = refl
renumber_from-orders i (r ∷ rs) = ap (λ l. (i + 1) ∷ l) (renumber_from-orders (i + 1) rs)

shown_Lacks : (rs : List Rule) → All (Lacks b',') (map (λ r. show r.id) rs)
shown_Lacks [] = tt
shown_Lacks (r ∷ rs) =
    let (digits, _, _) = show-IsNumeral r.id in
    (all-Lacks is_digit b',' (show r.id) refl (ground arith), shown_Lacks rs)

shown_ids :
    (rs ss : List Rule) → map (λ r. show r.id) rs ≡ map (λ r. show r.id) ss → ids rs ≡ ids ss
shown_ids rs ss h = sym (read_back rs) ∙ (ap (map parse_int) h ∙ read_back ss)
  where
    read_back : (ts : List Rule) → map parse_int (map (λ r. show r.id) ts) ≡ ids ts
    read_back [] = refl
    read_back (t ∷ ts) = let (_, _, e) = show-IsNumeral t.id in ap₂ ◌∷◌ e (read_back ts)

show-not_nil : (n : ℕ) → show n ≢ []
show-not_nil n h = let (digits, _, _) = show-IsNumeral n in cc (ap is_digits h ∙ refl)

split-order_string :
    (t : Rule) (ts : List Rule)
    → split_on b',' (order_string (t ∷ ts)) ≡ map (λ r. show r.id) (t ∷ ts)
unfolding order_string
split-order_string t ts =
    split_on-join b',' (show t.id) (map (λ r. show r.id) ts) (shown_Lacks (t ∷ ts))

-- A list of one rule or more has a text that is not empty.
order_string-not_nil : (r : Rule) (rs : List Rule) → order_string (r ∷ rs) ≢ []
unfolding order_string join split_on
order_string-not_nil r rs h =
    show-not_nil r.id
      (ap (λ ws. get_or ws 0 []) (sym (split-order_string r rs) ∙ ap (split_on b',') h))

order_string_of_ids : (rs ss : List Rule) → ids rs ≡ ids ss → order_string rs ≡ order_string ss
unfolding order_string
order_string_of_ids rs ss h = ap (join (codes ",")) (shown rs ∙ (ap (map show) h ∙ sym (shown ss)))
  where
    shown : (ts : List Rule) → map (λ r. show r.id) ts ≡ map show (ids ts)
    shown [] = refl
    shown (t ∷ ts) = ap (λ l. show t.id ∷ l) (shown ts)

-- The text that two lists are compared by says the numbers of the rules in their order.
pub order_string_iff : (rs ss : List Rule) → (order_string rs ≡ order_string ss) ↔ (ids rs ≡ ids ss)
unfolding order_string join
order_string_iff [] [] = (λ h. refl, λ h. refl)
order_string_iff [] (s ∷ ss) = (λ h. absurd (order_string-not_nil s ss (sym h)), λ h. cc)
order_string_iff (r ∷ rs) [] = (λ h. absurd (order_string-not_nil r rs h), λ h. cc)
order_string_iff (r ∷ rs) (s ∷ ss) = (
  λ h.
      shown_ids (r ∷ rs) (s ∷ ss)
        (sym (split-order_string r rs) ∙ (ap (split_on b',') h ∙ split-order_string s ss)),
  order_string_of_ids (r ∷ rs) (s ∷ ss),
)
