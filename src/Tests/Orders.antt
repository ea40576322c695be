-- ===== src/Tests/Orders.antt =====
-- Edits of the rule order on a list of three rules.
use mathlib.Core.List.{Perm}
use mathlib.Core.List.Perm
use networkat_cloud_web_app.Prelude.{ℕ, ◌≡◌, refl, true, false, some, List, [], ◌∷◌, length, map}
use networkat_cloud_web_app.Prelude.Text.{codes}
use networkat_cloud_web_app.Prelude.ParseInt.{parse_int_of}
use networkat_cloud_web_app.Firewall.Order.{
  Rule, Page, with_rules, swap, renumber_from, check_order_changes, clamp_order, move_rule_up,
  change_rule_order_directly, rules_fetched, check_order_changes, submit_reorder, handle_drag_end,
  rules_of_rows,
}
use networkat_cloud_web_app.Firewall.Order.Lists.{find_index, set, insert_at, remove_at}
use networkat_cloud_web_app.Firewall.Order.Numbers.{ids, counted}
use networkat_cloud_web_app.Firewall.Order.Steps.{
  Edits, Edited, Tracks, Edited-Tracks, submit_reorder-Edited, rules_fetched-Tracks,
  rules_fetched-banner,
}

abbrev three : List Rule
three =
    record { id = 11; order = 1; enabled = true; body = [] }
    ∷ record { id = 12; order = 2; enabled = false; body = [] }
    ∷ record { id = 13; order = 3; enabled = true; body = [] }
    ∷ []

abbrev blank : Page
blank = record { rules = []; initial_order = []; banner = false; online = false }

abbrev start : Page
start = rules_fetched true false three blank

abbrev dragged_page : Page
dragged_page = handle_drag_end (13 ∷ 11 ∷ 12 ∷ []) start

abbrev last : Page
last = move_rule_up 12 dragged_page

drag_is_perm : Perm (13 ∷ 11 ∷ 12 ∷ []) (ids three)
drag_is_perm = Perm.trans (Perm.swap 11 13 (12 ∷ [])) (Perm.cons 11 (Perm.swap 12 13 []))

edits : Edited start last
unfolding rules_fetched
edits =
    Edited.then
      (Edited.then (Edited.untouched start) (Edits.dragged (13 ∷ 11 ∷ 12 ∷ []) start drag_is_perm))
      (Edits.moved_up 12 dragged_page)

last_ids : ids last.rules ≡ 13 ∷ 12 ∷ 11 ∷ []
unfolding move_rule_up handle_drag_end with_rules check_order_changes rules_fetched renumber_from
    rules_of_rows swap set find_index
last_ids = refl

past_the_end : ids (change_rule_order_directly 11 (codes "9x") start).rules ≡ 12 ∷ 13 ∷ 11 ∷ []
unfolding change_rule_order_directly clamp_order parse_int_of with_rules check_order_changes
    rules_fetched renumber_from remove_at insert_at find_index
past_the_end = refl

Edited-Tracks_example : Tracks three last
Edited-Tracks_example =
    Edited-Tracks three refl edits (rules_fetched-Tracks true false three blank refl refl)

submit_reorder-Edited_example :
    (items : List (ℕ × ℕ)) × (submit_reorder false true last ≡ some items)
    × (map (λ (t : ℕ × ℕ). t.0) items ≡ ids last.rules)
    × Perm (ids last.rules) (ids three)
    × (map (λ (t : ℕ × ℕ). t.1) items ≡ counted 0 (length last.rules))
unfolding move_rule_up handle_drag_end with_rules check_order_changes rules_fetched rules_of_rows
    find_index
submit_reorder-Edited_example =
    submit_reorder-Edited three false true refl
      (rules_fetched-Tracks true false three blank refl refl) edits refl refl

rules_fetched-banner_example :
    ((rules_fetched true false three (record blank { banner = true })).banner ≡ true)
    × ((check_order_changes
          (rules_fetched true false three (record blank { banner = true }))).banner
        ≡ false)
rules_fetched-banner_example =
    rules_fetched-banner false three (record blank { banner = true }) refl
