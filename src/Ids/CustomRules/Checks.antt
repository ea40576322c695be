-- ===== src/Ids/CustomRules/Checks.antt =====
-- client/static/js/ids_win_custom_rules.js, `check`, `checked` and `condsOf`. `checkPort` is the test
-- of one part in the window of the networks, word for word.
use networkat_cloud_web_app.Prelude.{
  ℕ, Bool, true, false, not, ◌&&◌, ◌||◌, Option, none, some, List, ltb, leb, ◌==◌, if◌then◌else◌,
  length, is_nil, all, any, drop,
}
use networkat_cloud_web_app.Prelude.Text.{
  Text, codes, text_eq, is_digit, trim, starts_in, starts_with, split_on, to_lower,
}
use networkat_cloud_web_app.Ids.Networks.Fields.{NamedList}
use networkat_cloud_web_app.Ids.Networks.Ports.{port_match, port_fits}
use networkat_cloud_web_app.Ids.CustomRules.Fields.{
  Condition, ServerRule, RuleFields, CustomRule, from_server_rule,
}
use networkat_cloud_web_app.Ids.CustomRules.Conditions.{
  site_on, from_on, to_on, port_on, Resolved, a_value, an_alias, unresolved, resolve, is_user_agent,
  is_look_domain, is_to_addr, conditions,
}

-- The slots in which `check` leaves a message.
pub record RuleErrors : Type 0 where
  pub name : Bool
  pub site : Bool
  pub from : Bool
  pub to : Bool
  pub port : Bool
  pub proto : Bool

-- `/["';\\]/`
abbrev is_bad_name_char : ℕ → Bool
is_bad_name_char c = c == 34 || c == 39 || c == b';' || c == 92

-- `/[";\\|]/`
abbrev is_bad_agent_char : ℕ → Bool
is_bad_agent_char c = c == 34 || c == b';' || c == 92 || c == b'|'

-- `[a-z0-9_-]`
abbrev is_site_char : ℕ → Bool
is_site_char c = leb b'a' c && leb c b'z' || is_digit c || c == b'_' || c == b'-'

abbrev without_prefix : Text → Text
without_prefix s =
    if starts_with (codes "*.") s then drop 2 s else if starts_in b'.' s then drop 1 s else s

-- `/^(\*?\.)?([a-z0-9_-]+\.)*[a-z0-9_-]+$/`
unfoldable pub site_regex : Text → Bool
site_regex s = all (λ w. not (is_nil w) && all is_site_char w) (split_on b'.' (without_prefix s))

unfoldable pub site_error : RuleFields → Bool
site_error r =
    let s = to_lower (trim r.site) in
    if is_user_agent r.look
    then is_nil s || any is_bad_agent_char s || ltb 200 (length s)
    else is_nil s
      || ltb 253 (length s)
      || (if text_eq r.op (codes "contains")
          then not (all (λ c. is_site_char c || c == b'.') s)
          else not (site_regex s))

abbrev pub is_unresolved : Resolved → Bool
is_unresolved (a_value t) = false
is_unresolved (an_alias id) = false
is_unresolved unresolved = true

unfoldable pub check : List NamedList → CustomRule → RuleErrors
check lists fs =
    let r = fs.r in
    let n = trim r.name in
    record {
      name = is_nil n || ltb 100 (length n) || any is_bad_name_char n;
      site = site_on fs && site_error r;
      from = from_on fs && is_unresolved (resolve lists r.from_v);
      to = to_on fs && is_to_addr r.to && is_unresolved (resolve lists r.to_v);
      port =
          port_on fs
          && (is_nil (trim r.port)
              || not (port_fits (port_match (trim r.port)))
              || not (site_on fs) && text_eq r.proto (codes "any"));
      proto =
          port_on fs && site_on fs && not (is_look_domain r.look) && text_eq r.proto (codes "udp");
    }

abbrev pub has_errors : RuleErrors → Bool
has_errors e = e.name || e.site || e.from || e.to || e.port || e.proto

-- `checked`, for a form without warnings, and `staged`: the conditions of a form that is taken.
unfoldable pub staged_conditions : List NamedList → CustomRule → Option (List Condition)
staged_conditions lists fs =
    if has_errors (check lists fs) then none else some (conditions lists fs)

-- The switch of a row of a fetched rule, and `condsOf` when it is saved: the form is not checked.
unfoldable pub switched_conditions : List NamedList → ServerRule → List Condition
switched_conditions lists it = conditions lists (from_server_rule lists it)
