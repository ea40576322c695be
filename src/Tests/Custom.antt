-- ===== src/Tests/Custom.antt =====
-- The window of the customer's own rules.
use networkat_cloud_web_app.Prelude.{
  ◌≡◌, ◌≤◌, refl, true, false, some, none, List, [], ◌∷◌, All, length,
}
use networkat_cloud_web_app.Prelude.Text.{codes, is_space, text_eq, trim, split_on, lower, to_lower}
use networkat_cloud_web_app.Prelude.Decimal.{value_from}
use networkat_cloud_web_app.Ids.Networks.Fields.{
  NamedList, octet_regex, ip_regex, ok_addr, find_alias,
}
use networkat_cloud_web_app.Ids.Networks.Ports.{span_digits, port_match}
use networkat_cloud_web_app.Ids.CustomRules.Fields.{
  http_host, Condition, ServerRule, blank, site_kind, CustomRule,
}
use networkat_cloud_web_app.Ids.CustomRules.Conditions.{resolve, conditions}
use networkat_cloud_web_app.Ids.CustomRules.Checks.{
  check, site_error, site_regex, staged_conditions, switched_conditions,
}
use networkat_cloud_web_app.Ids.CustomRules.Parts.{
  by_alias, by_value, at, RuleParts, conditions_of, IsShown,
}
use networkat_cloud_web_app.Ids.CustomRules.Reopen.{switched_conditions_lem}
use networkat_cloud_web_app.Ids.CustomRules.Given.{IsGiven}
use networkat_cloud_web_app.Ids.CustomRules.Complete.{staged_conditions-IsGiven}

abbrev cameras : NamedList
cameras = record { id = codes "12"; name = codes "Cameras" }

-- Cameras that reach port 25 of an address over TCP.
abbrev mail_parts : RuleParts
mail_parts = record {
  site = none;
  from = some (by_alias (codes "12"));
  to = some (at (by_value (codes "10.1.0.9")));
  port = some (record { ports = codes "25"; proto = some (codes "tcp") });
}

abbrev mail_rule : ServerRule
mail_rule = record {
  id = codes "3";
  name = some (codes "Mail");
  severity = none;
  enabled = none;
  conditions = conditions_of mail_parts;
}

mail-IsShown : IsShown (cameras ∷ []) mail_parts
unfolding text_eq trim is_space find_alias ok_addr ip_regex octet_regex split_on value_from
mail-IsShown = record {
  activity = refl;
  site = tt;
  from = (refl, (cameras, refl, (refl, refl), (cameras, refl, refl)));
  to = (((refl, refl), refl, refl), refl, refl);
  port = (refl, (refl, refl));
}

switched_conditions_lem_example :
    switched_conditions (cameras ∷ []) mail_rule ≡ conditions_of mail_parts
switched_conditions_lem_example =
    switched_conditions_lem (cameras ∷ []) mail_rule mail_parts refl mail-IsShown

abbrev pub shop_form : CustomRule
shop_form = record {
  r = record blank {
    name = codes "Shop";
    look = http_host;
    site = codes "*.Shop.example";
    from = true;
    from_v = codes "@cameras";
    port = codes "80:81";
    proto = codes "tcp";
  };
  kind = site_kind;
  more = record { from = true; to = false; port = true; site = false };
}

abbrev shop_conditions : List Condition
shop_conditions = conditions (cameras ∷ []) shop_form

shop_staged : staged_conditions (cameras ∷ []) shop_form ≡ some shop_conditions
unfolding staged_conditions check site_error site_regex resolve find_alias port_match span_digits
    split_on trim text_eq to_lower lower value_from
shop_staged = refl

staged_conditions-IsGiven_example :
    All IsGiven shop_conditions × (1 ≤ length shop_conditions) × (length shop_conditions ≤ 5)
staged_conditions-IsGiven_example =
    staged_conditions-IsGiven (cameras ∷ []) shop_form shop_conditions
      (record { ids = (refl, tt); place = refl; proto = refl }) shop_staged
