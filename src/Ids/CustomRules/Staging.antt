-- ===== src/Ids/CustomRules/Staging.antt =====
-- client/static/js/ids_win_custom_rules.js, the staged rules: `fsKey`, `staged`, `strip`, `doAdd`,
-- `doEdit`, `setItem`, the buttons and the switch of a row, `discard`, `condsOf` and `save`. A row's
-- `uid`, which nothing reads, is left out.
pub mod Keys
use mathlib.Core.List.{reverse}
use networkat_cloud_web_app.Prelude.{
  ℕ, zero, suc, Bool, true, false, not, ◌&&◌, ◌||◌, Option, none, some, List, [], ◌∷◌, ◌++◌, map,
  ltb, leb, if◌then◌else◌, length, is_nil, keep, Result, ok, err,
}
use networkat_cloud_web_app.Prelude.Text.{Text, codes, text_eq, trim, to_lower}
use networkat_cloud_web_app.Ids.Networks.Fields.{NamedList}
use networkat_cloud_web_app.Ids.Networks.Staging.{
  Pending, unchanged, added, edited, removed, is_added, is_removed, is_pending,
}
use networkat_cloud_web_app.Ids.CustomRules.Fields.{
  AppType, domain, tls_name, http_host, http_user_agent, Condition, ServerRule, ToSide, to_unset,
  RuleFields, MoreParts, CustomRule, from_server_rule,
}
use networkat_cloud_web_app.Ids.CustomRules.Conditions.{
  site_on, from_on, to_on, port_on, is_to_addr, to_text, conditions,
}
use networkat_cloud_web_app.Ids.CustomRules.Checks.{check, has_errors}
use networkat_cloud_web_app.Ids.CustomRules.Form.{taken, with_part}

abbrev pub app_text : AppType → Text
app_text domain = codes "domain"
app_text tls_name = codes "tls_name"
app_text http_host = codes "http_host"
app_text http_user_agent = codes "http_user_agent"

-- The parts of the key; a part that is off is `none`.
abbrev pub site_key : CustomRule → Option (List Text)
site_key fs =
    if site_on fs
    then some (app_text fs.r.look ∷ fs.r.op ∷ to_lower (trim fs.r.site) ∷ [])
    else none

abbrev pub from_key : CustomRule → Option (List Text)
from_key fs = if from_on fs then some (trim fs.r.from_v ∷ []) else none

abbrev pub to_key : CustomRule → Option (List Text)
to_key fs =
    if to_on fs
    then some (to_text fs.r.to ∷ (if is_to_addr fs.r.to then trim fs.r.to_v else []) ∷ [])
    else none

abbrev pub port_key : CustomRule → Option (List Text)
port_key fs = if port_on fs then some (fs.r.proto ∷ trim fs.r.port ∷ []) else none

abbrev pub same_texts : List Text → List Text → Bool
same_texts [] [] = true
same_texts [] (t ∷ ts) = false
same_texts (s ∷ ss) [] = false
same_texts (s ∷ ss) (t ∷ ts) = text_eq s t && same_texts ss ts

abbrev pub same_part : Option (List Text) → Option (List Text) → Bool
same_part none none = true
same_part none (some ts) = false
same_part (some ss) none = false
same_part (some ss) (some ts) = same_texts ss ts

abbrev pub same_bool : Bool → Bool → Bool
same_bool true b = b
same_bool false b = not b

-- `fsKey(x) === fsKey(e)`
unfoldable pub same_rule : CustomRule → CustomRule → Bool
same_rule x e =
    text_eq (trim x.r.name) (trim e.r.name)
    && text_eq x.r.sev e.r.sev
    && same_bool x.r.on e.r.on
    && same_part (site_key x) (site_key e)
    && same_part (from_key x) (from_key e)
    && same_part (to_key x) (to_key e)
    && same_part (port_key x) (port_key e)

-- A rule of the list; one that was fetched has an id, one that was staged has its conditions.
pub record RuleItem : Type 0 where
  pub id : Option Text
  pub rule : CustomRule
  pub conds : Option (List Condition)

pub record RuleRow : Type 0 where
  pub item : RuleItem
  pub p : Pending
  pub orig : Option RuleItem

unfoldable pub fetched_item : List NamedList → ServerRule → RuleItem
fetched_item lists it = record { id = some it.id; rule = from_server_rule lists it; conds = none }

abbrev pub kept_rule : RuleItem → RuleRow
kept_rule item = record { item = item; p = unchanged; orig = none }

-- `old.orig || strip(old)`
abbrev pub rule_before : RuleRow → RuleItem
rule_before s = elim s.orig [ none ↦ s.item | some o ↦ o ]

-- The fields as staged: only the parts that are on are kept.
unfoldable pub staged_fields : CustomRule → RuleFields
staged_fields fs =
    let r = fs.r in
    record r {
      name = trim r.name;
      look = if site_on fs then r.look else domain;
      op = if site_on fs then r.op else codes "equals";
      site = if site_on fs then trim r.site else [];
      from = if from_on fs then r.from else false;
      from_v = if from_on fs then trim r.from_v else [];
      to = if to_on fs then r.to else to_unset;
      to_v = if to_on fs && is_to_addr r.to then trim r.to_v else [];
      proto = if port_on fs then r.proto else codes "any";
      port = if port_on fs then trim r.port else [];
    }

-- `staged`, for the item with an id if it had one.
unfoldable pub staged_item : List NamedList → Option Text → CustomRule → RuleItem
staged_item lists id fs = record {
  id = id;
  rule = record fs { r = staged_fields fs; more = with_part (taken fs.kind) false fs.more };
  conds = some (conditions lists fs);
}

unfoldable pub set_rule : RuleItem → RuleRow → RuleRow
set_rule nu old =
    let orig = rule_before old in
    if is_added old.p
    then record { item = nu; p = added; orig = none }
    else if same_rule nu.rule orig.rule
    then kept_rule orig
    else record { item = nu; p = edited; orig = some orig }

-- The writes at an index; the rows that the one there becomes.
abbrev pub at_rule : ℕ → (RuleRow → List RuleRow) → List RuleRow → List RuleRow
at_rule i f [] = []
at_rule zero f (s ∷ ss) = f s ++ ss
at_rule (suc i) f (s ∷ ss) = s ∷ at_rule i f ss

unfoldable pub live_rules : List RuleRow → List RuleRow
live_rules rows = keep (λ e. not (is_removed e.p)) rows

pub data AddRuleError : Type 0 where
  not_checked too_many_rules : AddRuleError

-- `doAdd`, for a form without warnings.
unfoldable pub add_rule :
    List NamedList → ℕ → CustomRule → List RuleRow → Result AddRuleError (List RuleRow)
add_rule lists limit fs rows =
    if has_errors (check lists fs)
    then err not_checked
    else if leb limit (length (live_rules rows))
    then err too_many_rules
    else ok (record { item = staged_item lists none fs; p = added; orig = none } ∷ rows)

-- `doEdit` of the row that was opened, for a form without warnings; the button is on while the form
-- has another key than `base`, the fields as they were opened.
unfoldable pub edit_rule : List NamedList → CustomRule → RuleRow → RuleRow
edit_rule lists fs row =
    if same_rule fs row.item.rule || has_errors (check lists fs)
    then row
    else set_rule (staged_item lists row.item.id fs) row

-- The switch of a row: `conds` stays as it was.
unfoldable pub switch_rule : Bool → RuleRow → RuleRow
switch_rule on row =
    let e = row.item in
    set_rule (record e { rule = record e.rule { r = record e.rule.r { on = on } } }) row

-- The buttons "Remove", "Keep it" and "Undo the change" of a row.
unfoldable pub delete_rule_row : RuleRow → List RuleRow
delete_rule_row s = if is_added s.p then [] else record s { p = removed } ∷ []

unfoldable pub undo_rule_row : RuleRow → List RuleRow
undo_rule_row s = elim s.orig [
  | none ↦ record s { p = unchanged } ∷ []
  | some o ↦ record s { p = edited } ∷ []
]

unfoldable pub revert_rule_row : RuleRow → List RuleRow
revert_rule_row s = kept_rule (rule_before s) ∷ []

unfoldable pub discard_rules : List RuleRow → List RuleRow
discard_rules rows = map (λ e. kept_rule (rule_before e)) (keep (λ e. not (is_added e.p)) rows)

-- `condsOf`
unfoldable pub conds_of : List NamedList → RuleItem → List Condition
conds_of lists e = elim e.conds [ some cs ↦ cs | none ↦ conditions lists e.rule ]

-- A rule in the request; an addition has no id.
pub record RuleBody : Type 0 where
  pub id : Option Text
  pub name : Text
  pub severity : Text
  pub enabled : Bool
  pub conditions : List Condition

unfoldable pub body_of : List NamedList → RuleItem → RuleBody
body_of lists e = record {
  id = e.id;
  name = e.rule.r.name;
  severity = e.rule.r.sev;
  enabled = e.rule.r.on;
  conditions = conds_of lists e;
}

pub record Batch : Type 0 where
  pub add : List RuleBody
  pub update : List RuleBody
  pub remove : List (Option Text)

abbrev pub is_edited : Pending → Bool
is_edited unchanged = false
is_edited added = false
is_edited edited = true
is_edited removed = false

abbrev pub bodies : List NamedList → List RuleRow → List RuleBody
bodies lists rows = map (λ s. body_of lists s.item) rows

unfoldable pub batch_of : List NamedList → List RuleRow → Batch
batch_of lists pend = record {
  add = bodies lists (reverse (keep (λ e. is_added e.p) pend));
  update = bodies lists (keep (λ e. is_edited e.p) pend);
  remove = map (λ e. e.item.id) (keep (λ e. is_removed e.p) pend);
}

pub data SaveOutcome : Type 0 where
  not_saved too_many_changes : SaveOutcome
  batch_sent : Batch → SaveOutcome

abbrev pub batch_max : ℕ
batch_max = 100

-- `save` up to its request; `busy` says that a save is under way or the window is for reading only.
unfoldable pub save_rules : List NamedList → Bool → List RuleRow → SaveOutcome
save_rules lists busy rows =
    let pend = keep (λ e. is_pending e.p) rows in
    if is_nil pend || busy
    then not_saved
    else if ltb batch_max (length pend)
    then too_many_changes
    else batch_sent (batch_of lists pend)
