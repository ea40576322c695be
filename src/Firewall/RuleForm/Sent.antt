-- ===== src/Firewall/RuleForm/Sent.antt =====
-- `submitAddRule`: what a form that is sent says.
use networkat_cloud_web_app.Prelude.{
  ℕ, ◌≤◌, ◌≡◌, refl, sym, ap, Bool, true, ◌||◌, Option, none, some, List, [], is_nil, arith, length,
}
use networkat_cloud_web_app.Prelude.Text.{trim}
use networkat_cloud_web_app.Alias.{Alias}
use networkat_cloud_web_app.Firewall.Addresses.{validate_address_input}
use networkat_cloud_web_app.Firewall.RuleForm.{
  src_ip_input, dst_ip_input, RuleForm, Payload, Request, post, put, sent, comment_errors,
  address_errors, ports_errors, field_errors, payload_of, request_of, submit_add_rule,
}
use networkat_cloud_web_app.Firewall.RuleForm.Fields.{
  SendsAddress, SendsPorts, append-nil_parts, address_sent-SendsAddress, ports_errors-SendsPorts,
  comment_fits, nil_of_is_nil,
}
use networkat_cloud_web_app.Firewall.RuleForm.Order.{SendsOrder, final_order-SendsOrder}

-- What is right about the data of a form that is sent.
pub record IsRight (lists : List Alias) (form : RuleForm) (p : Payload) : Type 0 where
  pub name_fits : length p.rule_name ≤ 200
  pub src : SendsAddress lists (trim form.src_ip) p.src_ip
  pub dst : SendsAddress lists (trim form.dst_ip) p.dst_ip
  pub src_ports : SendsPorts form.protocol (trim form.src_port) p.src_port
  pub dst_ports : SendsPorts form.protocol (trim form.dst_port) p.dst_port

abbrev pub SendsRequest : List Alias → ℕ → RuleForm → Option ℕ → Request → Type 0
SendsRequest lists count form editing (post p order) =
    (editing ≡ none) × IsRight lists form p × SendsOrder count form order
SendsRequest lists count form editing (put k p) = (editing ≡ some k) × IsRight lists form p

-- A form without marks has none at any field.
field_errors-nil :
    (lists : List Alias) (editing : Option ℕ) (form : RuleForm)
    → field_errors lists editing form ≡ []
    → (comment_errors (trim form.rule_name) ≡ [])
      × (address_errors src_ip_input (validate_address_input lists (trim form.src_ip)) ≡ [])
      × (address_errors dst_ip_input (validate_address_input lists (trim form.dst_ip)) ≡ [])
      × (ports_errors form.protocol (trim form.src_port) (trim form.dst_port) ≡ [])
unfolding field_errors
field_errors-nil lists editing form h =
    let (name, h₁) = append-nil_parts _ _ (ap is_nil h) in
    let (src, h₂) = append-nil_parts _ _ (ap is_nil h₁) in
    let (dst, h₃) = append-nil_parts _ _ (ap is_nil h₂) in
    let (ports, _) = append-nil_parts _ _ (ap is_nil h₃) in (name, src, dst, ports)

payload_of-IsRight :
    (lists : List Alias) (editing : Option ℕ) (form : RuleForm)
    → field_errors lists editing form ≡ []
    → IsRight lists form (payload_of lists form)
unfolding payload_of
payload_of-IsRight lists editing form h =
    let (name, src, dst, ports) = field_errors-nil lists editing form h in
    let (src_ports, dst_ports) =
      ports_errors-SendsPorts form.protocol form.src_port form.dst_port ports in
    record {
      name_fits = comment_fits (trim form.rule_name) name;
      src = address_sent-SendsAddress lists src_ip_input form.src_ip src;
      dst = address_sent-SendsAddress lists dst_ip_input form.dst_ip dst;
      src_ports = src_ports;
      dst_ports = dst_ports;
    }

request_of-SendsRequest :
    (lists : List Alias) (count : ℕ) (editing : Option ℕ) (form : RuleForm)
    → field_errors lists editing form ≡ []
    → SendsRequest lists count form editing (request_of lists count editing form)
unfolding request_of
request_of-SendsRequest lists count none form h =
    (refl, payload_of-IsRight lists none form h, final_order-SendsOrder count form)
request_of-SendsRequest lists count (some k) form h =
    (refl, payload_of-IsRight lists (some k) form h)

-- A form is sent only by who may use the firewall; then its comment has at most 200 code units, its
-- addresses are blank or the id form of their normal form, its ports are blank or well-formed lists
-- for a protocol that has ports, and the order of a new rule is null, 1, or the number typed, which is not
-- past the last rule. A changed rule keeps its number.
pub submit_add_rule-SendsRequest :
    (feature admin : Bool) (lists : List Alias) (count : ℕ) (editing : Option ℕ) (form : RuleForm)
    (r : Request)
    → submit_add_rule feature admin lists count editing form ≡ sent r
    → ((feature || admin) ≡ true) × SendsRequest lists count form editing r
unfolding submit_add_rule
submit_add_rule-SendsRequest feature admin lists count editing form r h =
    let fs = field_errors lists editing form in
    let allowed : (feature || admin) ≡ true = ground arith in
    let clean : field_errors lists editing form ≡ [] = nil_of_is_nil fs (ground arith) in
    let is_r : request_of lists count editing form ≡ r = ground arith in
    (allowed, rw (sym is_r) (request_of-SendsRequest lists count editing form clean))
