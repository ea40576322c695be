-- ===== src/Tests/Windows.antt =====
-- The window of the networks, servers and ports.
use networkat_cloud_web_app.Prelude.{
  ◌≡◌, ◌≤◌, ◌↔◌, ◌+◌, refl, false, some, none, List, [], ◌∷◌, map, ok,
}
use networkat_cloud_web_app.Prelude.Text.{codes, is_space, text_eq, split_on, join}
use networkat_cloud_web_app.Prelude.Decimal.{value_from}
use networkat_cloud_web_app.Ids.Networks.Fields.{addrs}
use networkat_cloud_web_app.Ids.Networks.Ports.{
  words, span_digits, port_match, check_port_parts, check_ports, PortField, port_typed, commit_port,
}
use networkat_cloud_web_app.Ids.Networks.Ports.Again.{
  PortSteps, untouched, typed, left, IsStaged, PortSteps-IsStaged,
}
use networkat_cloud_web_app.Ids.Networks.Staging.{
  address, Item, Staged, kept, at_row, delete_row, as_added, dup_of, new_items, made_of, live_count,
  do_add, discard, pending_items,
}
use networkat_cloud_web_app.Ids.Networks.Staging.Discard.{
  Reached, fetched, adding, deleting, Reached-saved,
}
use networkat_cloud_web_app.Ids.Networks.Staging.Adding.{Apart, live_items, do_add-Apart}
use networkat_cloud_web_app.Ids.Networks.Save.{Window, NetworksBody}

abbrev web_field : PortField
web_field = record {
  service = codes "web";
  shown = codes "80";
  ports = codes "80";
  saved = codes "80";
  default = codes "80, 443";
  perr = false;
  pwarn = false;
}

abbrev changed_field : PortField
changed_field = commit_port (port_typed (codes "8080 9000:9010,") web_field)

changed_field_lem :
    changed_field
    ≡ record web_field { shown = codes "8080, 9000-9010"; ports = codes "8080, 9000-9010" }
unfolding commit_port port_typed check_ports check_port_parts port_match span_digits words split_on
    join value_from is_space
changed_field_lem = refl

changed_steps : PortSteps web_field changed_field
changed_steps = left (typed (codes "8080 9000:9010,") (untouched web_field))

PortSteps-IsStaged_example : IsStaged web_field changed_field
PortSteps-IsStaged_example = PortSteps-IsStaged web_field changed_field changed_steps refl

abbrev lab : Item
lab = record { id = some (codes "7"); content = address (codes "10.9.0.0/16"); type = [] }

abbrev desk : Item
desk = record { id = none; content = address (codes "10.8.0.5"); type = [] }

abbrev with_desk : List Staged
with_desk = as_added desk ∷ kept lab ∷ []

desk_added :
    do_add false 2 [] (addrs (codes "10.8.0.5" ∷ codes "10.9.0.0/16" ∷ [])) (map kept (lab ∷ []))
    ≡ ok with_desk
unfolding do_add made_of new_items dup_of live_count text_eq
desk_added = refl

desk-Reached : Reached false 2 (lab ∷ []) with_desk
desk-Reached = adding [] (addrs (codes "10.8.0.5" ∷ codes "10.9.0.0/16" ∷ [])) desk_added fetched

Reached-saved_example :
    (discard (at_row 1 delete_row with_desk) ≡ map kept (lab ∷ []))
    × ((pending_items (at_row 1 delete_row with_desk) ≡ [])
        ↔ (at_row 1 delete_row with_desk ≡ map kept (lab ∷ [])))
Reached-saved_example =
    Reached-saved false 2 (lab ∷ []) (at_row 1 delete_row with_desk) (deleting 1 desk-Reached)

do_add-Apart_example :
    Apart (live_items with_desk)
    × (live_count (map kept (lab ∷ [])) + 1 ≤ live_count with_desk)
    × (live_count with_desk ≤ 2)
do_add-Apart_example =
    do_add-Apart false 2 [] (addrs (codes "10.8.0.5" ∷ codes "10.9.0.0/16" ∷ []))
      (map kept (lab ∷ [])) with_desk (tt, tt) desk_added

abbrev changed_window : Window
changed_window = record {
  nets = with_desk;
  servers = [];
  ports = changed_field ∷ [];
  saving = false;
  readonly = false;
}

abbrev changes_body : NetworksBody
changes_body = record {
  internal_networks =
      some ((address (codes "10.8.0.5"), []) ∷ (address (codes "10.9.0.0/16"), []) ∷ []);
  servers = none;
  service_ports = some ((codes "web", some (codes "8080" ∷ codes "9000-9010" ∷ [])) ∷ []);
}
