-- ===== src/Firewall/Bulk.antt =====
-- client/static/js/firewall.js: the checkboxes of the rule table, the bulk actions, and the requests
-- for one rule. `toggleSelectAllRules`, `onRuleCheckboxChange`, `deselectAllRules`,
-- `applyBulkAction`, `toggleRule` and `deleteRule`. The timers of the bar are events of their own.
pub mod Selected
pub mod Switched
use networkat_cloud_web_app.Prelude.{
  ℕ, ◌+◌, ◌≡◌, Bool, true, false, not, ◌&&◌, ◌||◌, Option, none, some, List, [], ◌∷◌, ◌++◌, map,
  ltb, ◌==◌, if◌then◌else◌, length, is_nil, keep,
}
use networkat_cloud_web_app.Prelude.Text.{Text, codes, text_eq}
use networkat_cloud_web_app.Firewall.Order.{Rule, has_rule_id}

-- A row's checkbox: the rule's number and whether it is checked.
pub record Box : Type 0 where
  pub rule_id : ℕ
  pub checked : Bool

-- The two timers of the bar: after 10 ms it gets the class `show`, after 300 ms it is taken off the
-- page if it does not have the class.
pub data Timer : Type 0 where
  show_timer hide_timer : Timer

-- `bar` says that the bar is on the page, `show` that it has the class; `timers` are those that have
-- been started and not run.
pub record Table : Type 0 where
  pub boxes : List Box
  pub master : Bool
  pub bar : Bool
  pub show : Bool
  pub badge : ℕ
  pub timers : List Timer

abbrev pub checked_boxes : List Box → List Box
checked_boxes = keep (λ b. b.checked)

unfoldable pub on_rule_checkbox_change : Table → Table
on_rule_checkbox_change t =
    let selected_count = length (checked_boxes t.boxes) in
    let master = selected_count == length t.boxes && ltb 0 (length t.boxes) in
    if ltb 0 selected_count
    then record t {
      master = master;
      badge = selected_count;
      bar = true;
      timers = t.timers ++ show_timer ∷ [];
    }
    else record t {
      master = master;
      badge = selected_count;
      show = false;
      timers = t.timers ++ hide_timer ∷ [];
    }

-- What a timer does when its time has come.
unfoldable pub timer_run : Timer → Table → Table
timer_run show_timer t = record t { show = true }
timer_run hide_timer t = record t { bar = if not t.show then false else t.bar }

-- All boxes get the same state.
abbrev pub check_all : Bool → List Box → List Box
check_all state = map (λ (b : Box). record b { checked = state })

-- A click on the master checkbox, which is then `state`.
unfoldable pub toggle_select_all_rules : Bool → Table → Table
toggle_select_all_rules state t =
    on_rule_checkbox_change (record t { master = state; boxes = check_all state t.boxes })

unfoldable pub deselect_all_rules : Table → Table
deselect_all_rules t =
    on_rule_checkbox_change (record t { master = false; boxes = check_all false t.boxes })

abbrev pub set_box : ℕ → Bool → List Box → List Box
set_box rule_id state [] = []
set_box rule_id state (b ∷ bs) =
    (if b.rule_id == rule_id then record b { checked = state } else b) ∷ set_box rule_id state bs

-- A click on the checkbox of a row, and the handler.
unfoldable pub row_clicked : ℕ → Bool → Table → Table
row_clicked rule_id state t =
    on_rule_checkbox_change (record t { boxes = set_box rule_id state t.boxes })

-- The body of the bulk request, if one is sent; `confirmed` is the answer to the question.
unfoldable pub apply_bulk_action : Bool → Bool → Bool → Text → Table → Option (Text × List ℕ)
apply_bulk_action feature_firewall admin_view confirmed action t =
    let selected_ids = map (λ b. b.rule_id) (checked_boxes t.boxes) in
    if not feature_firewall && not admin_view
    then none
    else if is_nil selected_ids
    then none
    else if text_eq action (codes "delete") && not confirmed
    then none
    else some (action, selected_ids)

unfoldable pub delete_rule : Bool → Bool → Bool → ℕ → Option ℕ
delete_rule feature_firewall admin_view confirmed rule_id =
    if not feature_firewall && not admin_view
    then none
    else if not confirmed
    then none
    else some rule_id

-- What comes back to a request to switch a rule: its new state, or a failure.
pub data SwitchAnswer : Type 0 where
  switched : Bool → SwitchAnswer
  failed : SwitchAnswer

-- The checkbox after the click that the handler answers, and the rules.
pub record Switch : Type 0 where
  pub checked : Bool
  pub disabled : Bool
  pub spinner : Bool
  pub rules : List Rule

-- The first rule with the number, if there is one, gets the state.
unfoldable pub set_enabled : ℕ → Bool → List Rule → List Rule
set_enabled rule_id state [] = []
set_enabled rule_id state (r ∷ rs) =
    let rest = set_enabled rule_id state rs in
    if has_rule_id rule_id r then record r { enabled = state } ∷ rs else r ∷ rest

-- Up to the request; the second part says whether one is sent.
unfoldable pub toggle_started : Bool → Bool → Switch → Switch × Bool
toggle_started feature_firewall admin_view s =
    if not feature_firewall && not admin_view
    then (record s { checked = not s.checked }, false)
    else (record s { disabled = true; spinner = true }, true)

unfoldable pub toggle_answered : ℕ → SwitchAnswer → Switch → Switch
toggle_answered rule_id (switched state) s = record s {
  checked = state;
  rules = set_enabled rule_id state s.rules;
  disabled = false;
  spinner = false;
}
toggle_answered rule_id failed s = record s {
  checked = not s.checked;
  disabled = false;
  spinner = false;
}

unfoldable pub toggle_rule : Bool → Bool → ℕ → SwitchAnswer → Switch → Switch
toggle_rule feature_firewall admin_view rule_id answer s =
    let (t, sent) = toggle_started feature_firewall admin_view s in
    if sent then toggle_answered rule_id answer t else t
