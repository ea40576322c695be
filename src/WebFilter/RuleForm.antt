-- ===== src/WebFilter/RuleForm.antt =====
-- client/static/js/web_filter.js, `submitRuleForm`: the form for a rule of the web filter, checked
-- and turned into a request.
pub mod Sent
pub mod Reopen
use networkat_cloud_web_app.Prelude.{
  ℕ, Bool, true, false, not, ◌&&◌, ◌||◌, Option, none, some, List, [], ◌∷◌, ◌++◌, map, ltb,
  if◌then◌else◌, length, is_nil, find, Result, ok, err,
}
use networkat_cloud_web_app.Prelude.Text.{Text, codes, text_eq, trim, join}
use networkat_cloud_web_app.Prelude.ParseInt.{
  JsInt, nan, plus, minus, is_below_one, parse_int_of, to_double,
}
use networkat_cloud_web_app.Alias.{Alias, parts_of}
use networkat_cloud_web_app.Firewall.Addresses.{AddressError}
use networkat_cloud_web_app.WebFilter.References.{
  DomainError, clean_ref, resolve_alias_id_to_name, resolve_alias_name_to_id,
  validate_web_filter_source, validate_web_filter_domains,
}

-- The radio button that is chosen, if any.
pub data OrderChoice : Type 0 where
  bottom first custom unchosen : OrderChoice

pub record RuleForm : Type 0 where
  pub comment : Text
  pub src : Text
  pub domains : Text
  pub order_choice : OrderChoice
  pub custom_order : Text

-- A rule as it was fetched; a missing comment or source is `none`.
pub record WebRule : Type 0 where
  pub id : Text
  pub comment : Option Text
  pub src : Option (List Text)
  pub domains : List Text

-- `(refs || []).map(r => resolveAliasIdToName(r)).join(', ')`
abbrev pub names_of : List Alias → List Text → Text
names_of aliases refs = join (codes ", ") (map (resolve_alias_id_to_name aliases) refs)

-- The form that `openEditRuleModal` fills for a rule; the place is left as it was.
unfoldable pub edit_form : List Alias → WebRule → RuleForm → RuleForm
edit_form aliases rule form = record form {
  comment = elim rule.comment [ none ↦ [] | some c ↦ c ];
  src = names_of aliases (elim rule.src [ none ↦ [] | some refs ↦ refs ]);
  domains = names_of aliases rule.domains;
}

-- `openEditRuleModal`: the rule that is edited then and the form; `none` where the window stays shut.
unfoldable pub open_edit_rule_modal :
    Bool → Bool → List Alias → List WebRule → Text → RuleForm → Option (Text × RuleForm)
open_edit_rule_modal feature_web_filter admin_view aliases rules rule_id form =
    if not feature_web_filter && not admin_view
    then none
    else elim (find (λ r. text_eq r.id rule_id) rules) [
      | none ↦ none
      | some rule ↦ some (rule_id, edit_form aliases rule form)
    ]

-- The marks, at the input that they are set at.
pub data Mark : Type 0 where
  comment_mark order_mark : Mark
  src_mark : AddressError → Mark
  domains_mark : DomainError → Mark

-- The property `order`: left out, null for a number that is infinite, or a place.
pub data Order : Type 0 where
  left_out null_place : Order
  place : ℕ → Order

-- What is sent; `none` is null.
pub record Payload : Type 0 where
  pub comment : Option Text
  pub src : Option (List Text)
  pub domains : List Text
  pub enabled : Bool
  pub order : Order

-- A new rule, or a change of the rule with this id.
pub data Request : Type 0 where
  post : Payload → Request
  put : Text → Payload → Request

pub data Outcome : Type 0 where
  refused : Outcome
  invalid : List Mark → Outcome
  sent : Request → Outcome

unfoldable pub validate_web_filter_comment : Text → Bool
validate_web_filter_comment comment = not (ltb 200 (length comment))

unfoldable pub src_marks : Result AddressError (Option Text) → List Mark
src_marks (ok _) = []
src_marks (err e) = src_mark e ∷ []

unfoldable pub domains_marks : Result DomainError (Unit {0}) → List Mark
domains_marks (ok _) = []
domains_marks (err e) = domains_mark e ∷ []

-- A changed rule has no order.
unfoldable pub order_marks : Option Text → OrderChoice → Text → List Mark
order_marks (some rule_id) choice custom_order = []
order_marks none custom custom_order =
    if is_below_one (parse_int_of custom_order) then order_mark ∷ [] else []
order_marks none bottom custom_order = []
order_marks none first custom_order = []
order_marks none unchosen custom_order = []

unfoldable pub form_marks : List Alias → Option Text → RuleForm → List Mark
form_marks aliases editing form =
    (if validate_web_filter_comment (trim form.comment) then [] else comment_mark ∷ [])
    ++ (src_marks (validate_web_filter_source aliases (trim form.src))
        ++ (domains_marks (validate_web_filter_domains aliases (trim form.domains))
            ++ order_marks editing form.order_choice form.custom_order))

-- `res && res.normalized ? res.normalized : raw`
abbrev pub src_text : Result AddressError (Option Text) → Text → Text
src_text (ok (some t)) raw = if is_nil t then raw else t
src_text (ok none) raw = raw
src_text (err e) raw = raw

unfoldable pub src_sent : List Alias → Text → Option (List Text)
src_sent aliases raw =
    if is_nil raw
    then none
    else some (
        map (resolve_alias_name_to_id aliases)
          (parts_of (src_text (validate_web_filter_source aliases raw) raw)))

unfoldable pub domains_sent : List Alias → Text → List Text
domains_sent aliases raw = map (λ d. resolve_alias_name_to_id aliases (clean_ref d)) (parts_of raw)

-- `customOrder > 0`, a number that is not `NaN`; `parseInt` gives a double.
abbrev pub positive : JsInt → Order
positive nan = left_out
positive (plus n) =
    if ltb 0 n then elim (to_double n) [ none ↦ null_place | some d ↦ place d ] else left_out
positive (minus n) = left_out

unfoldable pub order_sent : Option Text → OrderChoice → Text → Order
order_sent (some rule_id) choice custom_order = left_out
order_sent none first custom_order = place 1
order_sent none custom custom_order = positive (parse_int_of custom_order)
order_sent none bottom custom_order = left_out
order_sent none unchosen custom_order = left_out

unfoldable pub payload_of : List Alias → Option Text → RuleForm → Payload
payload_of aliases editing form = record {
  comment = if is_nil (trim form.comment) then none else some (trim form.comment);
  src = src_sent aliases (trim form.src);
  domains = domains_sent aliases (trim form.domains);
  enabled = true;
  order = order_sent editing form.order_choice form.custom_order;
}

unfoldable pub request_of : Option Text → Payload → Request
request_of none payload = post payload
request_of (some rule_id) payload = put rule_id payload

-- `editing` is `editingRuleId`.
unfoldable pub submit_rule_form : Bool → Bool → List Alias → Option Text → RuleForm → Outcome
submit_rule_form feature_web_filter admin_view aliases editing form =
    let marks = form_marks aliases editing form in
    if not feature_web_filter && not admin_view
    then refused
    else if is_nil marks
    then sent (request_of editing (payload_of aliases editing form))
    else invalid marks
