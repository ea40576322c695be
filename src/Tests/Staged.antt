-- ===== src/Tests/Staged.antt =====
-- The form of the customer's own rules as it is filled in, and rules with the same key.
use networkat_cloud_web_app.Prelude.{◌≡◌, refl, inl, true, none, some, []}
use networkat_cloud_web_app.Prelude.Text.{Text, codes, is_space, text_eq, trim, lower, to_lower}
use networkat_cloud_web_app.Ids.CustomRules.Fields.{
  http_user_agent, blank, addr_kind, port_kind, CustomRule,
}
use networkat_cloud_web_app.Ids.CustomRules.Conditions.{conditions}
use networkat_cloud_web_app.Ids.CustomRules.Form.{
  to_field, new_form, set_kind, clear_cond, typed_in,
}
use networkat_cloud_web_app.Ids.CustomRules.Form.Tidy.{IsTidy}
use networkat_cloud_web_app.Ids.CustomRules.Form.Steps.{
  FormSteps, opened, choosing, typing, FormSteps-IsTidy,
}
use networkat_cloud_web_app.Ids.CustomRules.Staging.{same_rule, RuleItem, kept_rule, set_rule}
use networkat_cloud_web_app.Ids.CustomRules.Staging.Keys.{same_rule-conditions}

-- An address is typed, and then the activity changes to a port.
abbrev to_address : CustomRule
to_address = set_kind addr_kind new_form

abbrev address_typed : CustomRule
address_typed = record to_address { r = typed_in to_field (codes "10.0.0.5") to_address.r }

abbrev to_port : CustomRule
to_port = set_kind port_kind address_typed

typed_steps : FormSteps to_port
unfolding set_kind
typed_steps =
    choosing port_kind (typing to_field (codes "10.0.0.5") refl (choosing addr_kind opened))

address_gone : to_port.r ≡ record blank { proto = codes "tcp" }
unfolding set_kind clear_cond typed_in text_eq
address_gone = refl

FormSteps-IsTidy_example : IsTidy to_port
FormSteps-IsTidy_example = FormSteps-IsTidy to_port typed_steps

abbrev site_form : Text → Text → CustomRule
site_form name site = record new_form { r = record blank { name = name; site = site } }

same_site :
    same_rule
      (site_form (codes " Shop") (codes "Shop.example "))
      (site_form (codes "Shop") (codes "shop.example"))
    ≡ true
unfolding same_rule trim is_space text_eq to_lower lower
same_site = refl

same_rule-conditions_example :
    (trim (codes " Shop") ≡ trim (codes "Shop"))
    × (codes "medium" ≡ codes "medium")
    × (true ≡ true)
    × (conditions [] (site_form (codes " Shop") (codes "Shop.example "))
        ≡ conditions [] (site_form (codes "Shop") (codes "shop.example")))
same_rule-conditions_example =
    same_rule-conditions [] (site_form (codes " Shop") (codes "Shop.example "))
      (site_form (codes "Shop") (codes "shop.example")) same_site (inl refl)

-- A user agent keeps its case in the request, but not in the key: the change is not staged.
abbrev agent_item : Text → RuleItem
agent_item site = record {
  id = some (codes "4");
  rule = record new_form {
    r = record blank { name = codes "Agent"; look = http_user_agent; site = site };
  };
  conds = none;
}

agent_lost :
    set_rule (agent_item (codes "Viewer")) (kept_rule (agent_item (codes "viewer")))
    ≡ kept_rule (agent_item (codes "viewer"))
unfolding set_rule same_rule trim is_space text_eq to_lower lower
agent_lost = refl
