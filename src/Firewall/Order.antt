-- ===== src/Firewall/Order.antt =====
-- client/static/js/firewall.js: the order of the rules on the page. `moveRuleUp`, `moveRuleDown`,
-- `changeRuleOrderDirectly`, `handleDragEnd`, `checkOrderChanges`, `submitReorder`, and the part of
-- `fetchRules` that fills the list. Drawing the table is left out.
pub mod Lists
pub mod Laws
pub mod Moves
pub mod Numbers
pub mod Drag
pub mod Steps
use networkat_cloud_web_app.Prelude.{
  ℕ, zero, suc, ◌+◌, ◌-◌, ◌≡◌, Bool, true, false, not, ◌&&◌, ◌||◌, Option, none, some, List, [],
  ◌∷◌, map, ltb, ◌==◌, if◌then◌else◌, length, get_elem?, find,
}
use networkat_cloud_web_app.Prelude.Text.{Text, codes, text_eq, join}
use networkat_cloud_web_app.Prelude.Decimal.{show}
use networkat_cloud_web_app.Prelude.ParseInt.{JsInt, nan, plus, minus, is_below_one, parse_int_of}
use networkat_cloud_web_app.Firewall.Order.Lists.{set, remove_at, insert_at, find_index}

-- A rule; what a rule says beside its number, place and switch is `body`.
pub record Rule : Type 0 where
  pub id : ℕ
  pub order : ℕ
  pub enabled : Bool
  pub body : Text

-- `currentRules`, `initialRulesOrder`, whether the banner is shown, and whether the device is online.
pub record Page : Type 0 where
  pub rules : List Rule
  pub initial_order : Text
  pub banner : Bool
  pub online : Bool

-- `rules.map(r => r.id).join(',')`
unfoldable pub order_string : List Rule → Text
order_string rules = join (codes ",") (map (λ r. show r.id) rules)

-- `forEach((r, i) => r.order = i + 1)`
unfoldable pub renumber_from : ℕ → List Rule → List Rule
renumber_from i [] = []
renumber_from i (r ∷ rs) = record r { order = i + 1 } ∷ renumber_from (i + 1) rs

abbrev pub has_rule_id : ℕ → Rule → Bool
has_rule_id rule_id r = r.id == rule_id

unfoldable pub check_order_changes : Page → Page
check_order_changes p = record p { banner = not (text_eq (order_string p.rules) p.initial_order) }

-- The three lines that end each move.
unfoldable pub with_rules : Page → List Rule → Page
with_rules p rules = check_order_changes (record p { rules = renumber_from 0 rules })

-- The rules at `i` and `j` change places.
unfoldable pub swap : List Rule → ℕ → ℕ → List Rule
swap rules i j = elim (get_elem? rules i) [
  | none ↦ rules
  | some a ↦ elim (get_elem? rules j) [ none ↦ rules | some b ↦ set (set rules i b) j a ]
]

unfoldable pub move_rule_up : ℕ → Page → Page
move_rule_up rule_id p = elim (find_index (has_rule_id rule_id) p.rules) [
  | none ↦ p
  | some index ↦ if ltb 0 index then with_rules p (swap p.rules index (index - 1)) else p
]

-- `findIndex` gives -1 for a number that is not there, and -1 is below `length - 1` unless the list
-- is empty: the swap then reads `currentRules[-1]`. `none` stands for that fault.
unfoldable pub move_rule_down : ℕ → Page → Option Page
move_rule_down rule_id p = elim (find_index (has_rule_id rule_id) p.rules) [
  | none ↦ if ltb 0 (length p.rules) then none else some p
  | some index ↦
      if ltb (index + 1) (length p.rules)
      then some (with_rules p (swap p.rules index (index + 1)))
      else some p
]

-- NaN and what is below 1 become 1, what is past the end becomes the length.
unfoldable pub clamp_order : JsInt → ℕ → ℕ
clamp_order v len =
    let at_least_one : ℕ = elim v [ nan ↦ 1 | plus n ↦ (if ltb n 1 then 1 else n) | minus n ↦ 1 ] in
    if ltb len at_least_one then len else at_least_one

unfoldable pub change_rule_order_directly : ℕ → Text → Page → Page
change_rule_order_directly rule_id new_order_val p =
    let new_order = clamp_order (parse_int_of new_order_val) (length p.rules) in
    elim (find_index (has_rule_id rule_id) p.rules) [
      | none ↦ p
      | some old_index ↦
          if old_index == new_order - 1 then p else elim (get_elem? p.rules old_index) [
            | none ↦ p
            | some moved ↦
                with_rules p (insert_at (remove_at p.rules old_index) (new_order - 1) moved)
          ]
    ]

-- The rows of the table after a drag, by their rule numbers; `idx` counts all rows.
unfoldable pub rules_of_rows : List Rule → ℕ → List ℕ → List Rule
rules_of_rows rules idx [] = []
rules_of_rows rules idx (row ∷ rows) =
    let rest = rules_of_rows rules (idx + 1) rows in
    elim (find (has_rule_id row) rules) [
      | none ↦ rest
      | some r ↦ record r { order = idx + 1 } ∷ rest
    ]

unfoldable pub handle_drag_end : List ℕ → Page → Page
handle_drag_end rows p = check_order_changes (record p { rules = rules_of_rows p.rules 0 rows })

-- `submitReorder`: the items that are sent, if the device is online and the plan allows it.
unfoldable pub reorder_items : ℕ → List Rule → List (ℕ × ℕ)
reorder_items idx [] = []
reorder_items idx (r ∷ rs) = (r.id, idx + 1) ∷ reorder_items (idx + 1) rs

unfoldable pub submit_reorder : Bool → Bool → Page → Option (List (ℕ × ℕ))
submit_reorder feature_firewall admin_view p =
    if not p.online
    then none
    else if not feature_firewall && not admin_view
    then none
    else some (reorder_items 0 p.rules)

-- The server's answer to the reorder: a refusal only shows a message.
unfoldable pub reorder_answered : Bool → Page → Page
reorder_answered accepted p = if accepted then record p { banner = false } else p

-- A fetch that succeeds. With the device offline the page is left, but for an administrator.
unfoldable pub rules_fetched : Bool → Bool → List Rule → Page → Page
rules_fetched agent_online admin_view rules p =
    if not agent_online && not admin_view
    then record p { online = agent_online }
    else record p { rules = rules; initial_order = order_string rules; online = agent_online }
