-- ===== src/Ids/CustomRules/Conditions.antt =====
-- client/static/js/ids_win_custom_rules.js, `resolve` and `conditions`: what a form sends. `okAddr`
-- is that of the window of the networks, word for word.
use networkat_cloud_web_app.Prelude.{
  Bool, true, false, ◌||◌, Option, none, some, List, [], ◌∷◌, ◌++◌, if◌then◌else◌, is_nil, drop,
}
use networkat_cloud_web_app.Prelude.Text.{Text, codes, text_eq, trim, starts_in, to_lower}
use networkat_cloud_web_app.Ids.Networks.Fields.{NamedList, ok_addr, find_alias}
use networkat_cloud_web_app.Ids.CustomRules.Fields.{
  AppType, domain, tls_name, http_host, http_user_agent, CondType, app_layer, source, destination,
  port, protocol, Condition, ToSide, to_unset, to_addr, to_internet, to_lan, RuleFields, CustomRule,
  is_addr_kind, is_site_kind, is_port_kind,
}

abbrev pub site_on : CustomRule → Bool
site_on fs = is_site_kind fs.kind || fs.more.site

abbrev pub from_on : CustomRule → Bool
from_on fs = fs.more.from

abbrev pub to_on : CustomRule → Bool
to_on fs = is_addr_kind fs.kind || fs.more.to

abbrev pub port_on : CustomRule → Bool
port_on fs = is_port_kind fs.kind || fs.more.port

-- What `resolve` gives: `{value}`, `{alias_id}` or `{err}`.
pub data Resolved : Type 0 where
  a_value an_alias : Text → Resolved
  unresolved : Resolved

unfoldable pub resolve : List NamedList → Text → Resolved
resolve lists v =
    let t = trim v in
    if is_nil t
    then unresolved
    else if starts_in b'@' t
    then elim (find_alias lists (trim (drop 1 t))) [ some a ↦ an_alias a.id | none ↦ unresolved ]
    else if text_eq t (codes "lan") || text_eq t (codes "internet") || ok_addr t
    then a_value t
    else unresolved

abbrev pub value_condition : CondType → Option Text → Condition
value_condition type value = record { type = type; operator = none; value = value; alias_id = none }

-- The condition for an address or an alias; the value is undefined where there is neither.
unfoldable pub side_condition : List NamedList → CondType → Text → Condition
side_condition lists type v = elim (resolve lists v) [
  | a_value t ↦ value_condition type (some t)
  | an_alias id ↦ record { type = type; operator = none; value = none; alias_id = some id }
  | unresolved ↦ value_condition type none
]

abbrev pub is_user_agent : AppType → Bool
is_user_agent domain = false
is_user_agent tls_name = false
is_user_agent http_host = false
is_user_agent http_user_agent = true

abbrev pub is_look_domain : AppType → Bool
is_look_domain domain = true
is_look_domain tls_name = false
is_look_domain http_host = false
is_look_domain http_user_agent = false

abbrev pub is_to_addr : ToSide → Bool
is_to_addr to_unset = false
is_to_addr to_addr = true
is_to_addr to_internet = false
is_to_addr to_lan = false

-- `r.to` as a text
abbrev pub to_text : ToSide → Text
to_text to_unset = []
to_text to_addr = codes "addr"
to_text to_internet = codes "internet"
to_text to_lan = codes "lan"

unfoldable pub site_part : RuleFields → List Condition
site_part r =
    record {
      type = app_layer r.look;
      operator = some r.op;
      value = some (if is_user_agent r.look then trim r.site else to_lower (trim r.site));
      alias_id = none;
    }
    ∷ []

unfoldable pub to_part : List NamedList → RuleFields → List Condition
to_part lists r =
    if is_to_addr r.to
    then side_condition lists destination r.to_v ∷ []
    else value_condition destination (some (to_text r.to)) ∷ []

unfoldable pub port_part : RuleFields → List Condition
port_part r =
    value_condition port (some (trim r.port))
    ∷ (if text_eq r.proto (codes "any") then [] else value_condition protocol (some r.proto) ∷ [])

unfoldable pub conditions : List NamedList → CustomRule → List Condition
conditions lists fs =
    (if site_on fs then site_part fs.r else [])
    ++ ((if from_on fs then side_condition lists source fs.r.from_v ∷ [] else [])
        ++ ((if to_on fs then to_part lists fs.r else [])
            ++ (if port_on fs then port_part fs.r else [])))
