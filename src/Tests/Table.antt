-- ===== src/Tests/Table.antt =====
-- The rule table's checkboxes.
use networkat_cloud_web_app.Prelude.{
  ◌≡◌, ◌↔◌, refl, true, false, not, ◌||◌, some, [], ◌∷◌, map, List, ℕ,
}
use networkat_cloud_web_app.Prelude.Text.{Text, codes, text_eq}
use networkat_cloud_web_app.Firewall.Bulk.{
  Box, Table, show_timer, hide_timer, timer_run, on_rule_checkbox_change, row_clicked,
  checked_boxes, apply_bulk_action,
}
use networkat_cloud_web_app.Firewall.Bulk.Selected.{
  Agrees, Click, on_row, on_master, as_said, clicked_all, clicked_all-Agrees, apply_bulk_action_iff,
}

abbrev two_rows : Table
two_rows = record {
  boxes = record { rule_id = 4; checked = false } ∷ record { rule_id = 9; checked = true } ∷ [];
  master = false;
  bar = true;
  show = true;
  badge = 1;
  timers = [];
}

two_rows-Agrees : Agrees two_rows
two_rows-Agrees = record { master = refl; bar = refl; show = refl; badge = refl; timers = refl }

abbrev some_clicks : List Click
some_clicks = on_master true ∷ on_row 4 false ∷ []

clicked_all-Agrees_example :
    Agrees (clicked_all some_clicks two_rows)
    × ((clicked_all some_clicks two_rows).boxes ≡ as_said some_clicks two_rows.boxes)
clicked_all-Agrees_example = clicked_all-Agrees some_clicks two_rows two_rows-Agrees

nine_left : as_said some_clicks two_rows.boxes ≡ two_rows.boxes
nine_left = refl

-- The row is unchecked and checked again just before the timer that takes the bar off the page has
-- run: the bar stays off the page, with a row checked.
abbrev in_a_hurry : Table
in_a_hurry =
    timer_run show_timer (timer_run hide_timer (row_clicked 9 true (row_clicked 9 false two_rows)))

bar_lost : (in_a_hurry.bar ≡ false) × (in_a_hurry.boxes ≡ two_rows.boxes)
unfolding timer_run row_clicked on_rule_checkbox_change
bar_lost = (refl, refl)

abbrev delete_nine : Text × List ℕ
delete_nine = (codes "delete", 9 ∷ [])

apply_bulk_action_iff_example :
    (apply_bulk_action true false true (codes "delete") two_rows ≡ some delete_nine) ↔ (
      ((true || false) ≡ true)
      × (two_rows.bar ≡ true)
      × ((not (text_eq (codes "delete") (codes "delete")) || true) ≡ true)
      × (delete_nine
          ≡ (codes "delete", map (λ (b : Box). b.rule_id) (checked_boxes two_rows.boxes))))
apply_bulk_action_iff_example =
    apply_bulk_action_iff true false true (codes "delete") two_rows delete_nine two_rows-Agrees
