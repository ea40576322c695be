-- ===== src/Firewall/RuleForm.antt =====
-- client/static/js/firewall.js, `submitAddRule`: the form for a new or a changed rule, checked and
-- turned into a request. Fields are texts as they stand in the form; the page's aliases and the
-- number of its rules are arguments.
pub mod Order
pub mod Fields
pub mod Sent
use networkat_cloud_web_app.Prelude.{
  ℕ, ◌≡◌, Bool, true, false, not, ◌&&◌, ◌||◌, Option, none, some, List, [], ◌∷◌, ◌++◌, ltb,
  if◌then◌else◌, is_nil, Result, ok, err,
}
use networkat_cloud_web_app.Prelude.Text.{Text, codes, text_eq, trim, to_lower}
use networkat_cloud_web_app.Prelude.ParseInt.{JsInt, nan, plus, minus, is_below_one, parse_int_of}
use networkat_cloud_web_app.Alias.{Alias, resolve_alias_names_to_ids}
use networkat_cloud_web_app.Firewall.Addresses.{
  AddressError, validate_address_input, validate_comment_input,
}
use networkat_cloud_web_app.Firewall.Ports.{PortError, validate_port_input}

-- The inputs that can be marked as wrong, and what is said of them.
pub data Field : Type 0 where
  rule_name_input src_ip_input dst_ip_input src_port_input dst_port_input : Field
  custom_order_input : Field

pub data FieldError : Type 0 where
  comment_too_long ports_not_allowed order_invalid : FieldError
  address_error : AddressError → FieldError
  port_error : PortError → FieldError

-- The chosen radio button; "bottom" if none is.
pub data OrderChoice : Type 0 where
  first bottom custom : OrderChoice

pub record RuleForm : Type 0 where
  pub rule_name : Text
  pub action : Text
  pub protocol : Text
  pub iface : Text
  pub src_ip : Text
  pub dst_ip : Text
  pub src_port : Text
  pub dst_port : Text
  pub order_choice : OrderChoice
  pub custom_order : Text

-- What is sent; `none` is null.
pub record Payload : Type 0 where
  pub rule_name : Text
  pub action : Text
  pub protocol : Text
  pub iface : Text
  pub src_ip : Option Text
  pub dst_ip : Option Text
  pub src_port : Option Text
  pub dst_port : Option Text

-- A new rule with its place, or a change of the rule with this number.
pub data Request : Type 0 where
  post : Payload → Option JsInt → Request
  put : ℕ → Payload → Request

pub data Outcome : Type 0 where
  refused : Outcome
  invalid : List (Field × FieldError) → Outcome
  sent : Request → Outcome

-- `protocol !== 'any' && protocol !== 'icmp'`
unfoldable pub has_ports : Text → Bool
has_ports protocol = not (text_eq protocol (codes "any")) && not (text_eq protocol (codes "icmp"))

unfoldable pub comment_errors : Text → List (Field × FieldError)
comment_errors value =
    if validate_comment_input value then [] else (rule_name_input, comment_too_long) ∷ []

unfoldable pub address_errors :
    Field → Result AddressError (Option Text) → List (Field × FieldError)
address_errors field (ok _) = []
address_errors field (err e) = (field, address_error e) ∷ []

unfoldable pub port_errors : Field → Result PortError (Unit {0}) → List (Field × FieldError)
port_errors field (ok _) = []
port_errors field (err e) = (field, port_error e) ∷ []

unfoldable pub ports_errors : Text → Text → Text → List (Field × FieldError)
ports_errors protocol src_port dst_port =
    if has_ports protocol
    then port_errors src_port_input (validate_port_input src_port)
      ++ port_errors dst_port_input (validate_port_input dst_port)
    else if not (is_nil src_port) || not (is_nil dst_port)
    then (src_port_input, ports_not_allowed) ∷ (dst_port_input, ports_not_allowed) ∷ []
    else []

-- `editing` is the number of the rule that is changed.
unfoldable pub order_errors : Option ℕ → OrderChoice → Text → List (Field × FieldError)
order_errors none custom custom_order =
    if is_below_one (parse_int_of custom_order)
    then (custom_order_input, order_invalid) ∷ []
    else []
order_errors _ _ custom_order = []

-- All marks, in the order they are set: the first is the input that gets the focus.
unfoldable pub field_errors : List Alias → Option ℕ → RuleForm → List (Field × FieldError)
field_errors lists editing form =
    comment_errors (trim form.rule_name)
    ++ (address_errors src_ip_input (validate_address_input lists (trim form.src_ip))
        ++ (address_errors dst_ip_input (validate_address_input lists (trim form.dst_ip))
            ++ (ports_errors form.protocol (trim form.src_port) (trim form.dst_port)
                ++ order_errors editing form.order_choice form.custom_order)))

-- `x || null`
abbrev pub or_null : Text → Option Text
or_null [] = none
or_null (c ∷ s) = some (c ∷ s)

-- `res.normalized !== undefined ? res.normalized : value`
unfoldable pub normalized_or : Result AddressError (Option Text) → Text → Text
normalized_or (ok (some t)) value = t
normalized_or (ok none) value = value
normalized_or (err e) value = value

unfoldable pub address_sent : List Alias → Text → Option Text
address_sent lists value =
    or_null
      (resolve_alias_names_to_ids lists (normalized_or (validate_address_input lists value) value))

unfoldable pub port_sent : Text → Text → Option Text
port_sent protocol value = if has_ports protocol then or_null value else none

unfoldable pub payload_of : List Alias → RuleForm → Payload
payload_of lists form = record {
  rule_name = trim form.rule_name;
  action = form.action;
  protocol = form.protocol;
  iface = form.iface;
  src_ip = address_sent lists (trim form.src_ip);
  dst_ip = address_sent lists (trim form.dst_ip);
  src_port = port_sent form.protocol (trim form.src_port);
  dst_port = port_sent form.protocol (trim form.dst_port);
}

unfoldable pub order_val : OrderChoice → Text → Text
order_val first custom_order = codes "first"
order_val bottom custom_order = codes "bottom"
order_val custom custom_order = to_lower (trim custom_order)

-- `num > currentRules.length`
abbrev pub is_above : ℕ → JsInt → Bool
is_above count nan = false
is_above count (plus n) = ltb count n
is_above count (minus n) = false

unfoldable pub final_order : ℕ → Text → Option JsInt
final_order count value =
    if text_eq value (codes "first")
    then some (plus 1)
    else if text_eq value (codes "bottom") || is_nil value
    then none
    else elim (parse_int_of value) [
      | nan ↦ none
      | plus n ↦ (if is_above count (plus n) then none else some (plus n))
      | minus n ↦ (if is_above count (minus n) then none else some (minus n))
    ]

unfoldable pub request_of : List Alias → ℕ → Option ℕ → RuleForm → Request
request_of lists count (some rule_id) form = put rule_id (payload_of lists form)
request_of lists count none form =
    post (payload_of lists form) (final_order count (order_val form.order_choice form.custom_order))

unfoldable pub submit_add_rule : Bool → Bool → List Alias → ℕ → Option ℕ → RuleForm → Outcome
submit_add_rule feature_firewall admin_view lists count editing form =
    if not feature_firewall && not admin_view
    then refused
    else (let errors = field_errors lists editing form in
        if is_nil errors then sent (request_of lists count editing form) else invalid errors)
