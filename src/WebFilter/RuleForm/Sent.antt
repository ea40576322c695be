-- ===== src/WebFilter/RuleForm/Sent.antt =====
-- `submitRuleForm`: what a rule that is sent says.
use networkat_cloud_web_app.Prelude.{
  ℕ, ◌^◌, ◌≡◌, ◌≢◌, ◌≤◌, ◌<◌, ◌⊎◌, true, Option, none, some, List, length, All,
}
use networkat_cloud_web_app.Prelude.Text.{Text, trim}
use networkat_cloud_web_app.Prelude.ParseInt.{plus, parse_int_of}
use networkat_cloud_web_app.Alias.{Alias}
use networkat_cloud_web_app.WebFilter.References.Sent.{IsReference}
use networkat_cloud_web_app.WebFilter.RuleForm.{
  OrderChoice, bottom, first, custom, unchosen, RuleForm, Payload, Request, post, put, Order,
  left_out, place,
}

-- The number that is sent for one that was typed: itself below 2^53, and from there on a rounded one
-- or null, but never nothing.
abbrev pub IsTyped : ℕ → Order → Type 0
IsTyped n order = ((n < 2 ^ 53) × (order ≡ place n)) ⊎ ((2 ^ 53 ≤ n) × (order ≢ left_out))

-- The place of a new rule: the first, the one typed, or none for the last.
abbrev pub IsPlace : OrderChoice → Text → Order → Type 0
IsPlace bottom custom_order order = order ≡ left_out
IsPlace unchosen custom_order order = order ≡ left_out
IsPlace first custom_order order = order ≡ place 1
IsPlace custom custom_order order =
    (n : ℕ) × (parse_int_of custom_order ≡ plus n) × (1 ≤ n) × IsTyped n order

-- What is right about the data of a rule that is sent.
pub record IsRight (aliases : List Alias) (form : RuleForm) (p : Payload) : Type 0 where
  pub comment_fits : length (trim form.comment) ≤ 200
  pub some_domain : 1 ≤ length p.domains
  pub references : All (IsReference aliases) p.domains
  pub enabled : p.enabled ≡ true

abbrev pub SendsRequest : List Alias → Option Text → RuleForm → Request → Type 0
SendsRequest aliases editing form (post p) =
    (editing ≡ none) × IsRight aliases form p × IsPlace form.order_choice form.custom_order p.order
SendsRequest aliases editing form (put rule_id p) =
    (editing ≡ some rule_id) × IsRight aliases form p × (p.order ≡ left_out)
