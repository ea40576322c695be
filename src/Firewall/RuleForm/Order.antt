-- ===== src/Firewall/RuleForm/Order.antt =====
-- `submitAddRule`: the place that is sent for a new rule.
use networkat_cloud_web_app.Prelude.{
  ℕ, ◌≡◌, refl, sym, Bool, true, false, ◌||◌, Option, none, some, if◌then◌else◌, is_nil, inl, inr,
  ◌⊎◌, Bool-cases,
}
use networkat_cloud_web_app.Prelude.Text.{Text, codes, text_eq, trim, to_lower}
use networkat_cloud_web_app.Prelude.ParseInt.{JsInt, nan, plus, minus, parse_int_of}
use networkat_cloud_web_app.Firewall.RuleForm.{
  OrderChoice, first, bottom, custom, RuleForm, order_val, is_above, final_order,
}

-- An order is sent as null or a number; a number other than 1 is the one typed, and is
-- not past the last rule.
abbrev pub SendsOrder : ℕ → RuleForm → Option JsInt → Type 0
SendsOrder count form none = Unit
SendsOrder count form (some v) =
    (v ≡ plus 1)
    ⊎ ((form.order_choice ≡ custom)
        × (v ≡ parse_int_of (to_lower (trim form.custom_order)))
        × (is_above count v ≡ false))

-- The number that a text is read as is sent if it is not past the last rule.
OrderRead : ℕ → Text → Option JsInt → Type 0
OrderRead count value none = Unit
OrderRead count value (some v) =
    (v ≡ plus 1) ⊎ ((v ≡ parse_int_of value) × (is_above count v ≡ false))

final_order-OrderRead : (count : ℕ) (value : Text) → OrderRead count value (final_order count value)
unfolding final_order OrderRead
final_order-OrderRead count value =
    go (text_eq value (codes "first")) (text_eq value (codes "bottom") || is_nil value)
      (parse_int_of value) refl
  where
    within :
        (v : JsInt)
        → parse_int_of value ≡ v
        → OrderRead count value (if is_above count v then none else some v)
    within v e = elim (Bool-cases (is_above count v)) [
      | inl above ↦ rw above tt
      | inr inside ↦ rw inside (inr (sym e, inside))
    ]

    go :
        (is_first is_bottom : Bool) (read : JsInt)
        → parse_int_of value ≡ read
        → OrderRead count value (
            if is_first then some (plus 1) else if is_bottom then none else elim read [
              | nan ↦ none
              | plus n ↦ (if is_above count (plus n) then none else some (plus n))
              | minus n ↦ (if is_above count (minus n) then none else some (minus n))
            ])
    go true is_bottom read e = inl refl
    go false true read e = tt
    go false false nan e = tt
    go false false (plus n) e = within (plus n) e
    go false false (minus n) e = within (minus n) e

pub final_order-SendsOrder :
    (count : ℕ) (form : RuleForm)
    → SendsOrder count form (final_order count (order_val form.order_choice form.custom_order))
unfolding order_val OrderRead final_order text_eq
final_order-SendsOrder count form = go form.order_choice refl
  where
    typed :
        (o : Option JsInt)
        → form.order_choice ≡ custom
        → OrderRead count (to_lower (trim form.custom_order)) o
        → SendsOrder count form o
    typed none e r = tt
    typed (some v) e (inl one) = inl one
    typed (some v) e (inr (read, inside)) = inr (e, read, inside)

    go :
        (choice : OrderChoice)
        → form.order_choice ≡ choice
        → SendsOrder count form (final_order count (order_val choice form.custom_order))
    go first e = inl refl
    go bottom e = tt
    go custom e = typed _ e (final_order-OrderRead count (to_lower (trim form.custom_order)))
