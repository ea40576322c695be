-- ===== src/Ids/Networks/Save.antt =====
-- client/static/js/ids_win_networks.js, `takeDoc`, `pendingCount`, `save` and `discard`: the state of
-- the window, the request with what changed, and what follows the answer.
pub mod Changes
use networkat_cloud_web_app.Prelude.{
  ℕ, ◌+◌, Bool, true, false, not, ◌&&◌, ◌||◌, Option, none, some, List, [], ◌∷◌, map, ◌==◌, ltb,
  if◌then◌else◌, length, is_nil, any, keep, find,
}
use networkat_cloud_web_app.Prelude.Text.{Text, codes, text_eq, join}
use networkat_cloud_web_app.Ids.Networks.Ports.{
  replace_colon, PortField, is_pending_port, undo_port, ports_body,
}
use networkat_cloud_web_app.Ids.Networks.Staging.{
  Content, Item, ServerItem, from_server, Staged, is_pending, kept, discard, pending_items,
  list_body,
}

pub record Window : Type 0 where
  pub nets : List Staged
  pub servers : List Staged
  pub ports : List PortField
  pub saving : Bool
  pub readonly : Bool

-- The settings as they are fetched; a service without an entry has no ports.
pub record SettingsDoc : Type 0 where
  pub internal_networks : List ServerItem
  pub servers : List ServerItem
  pub service_ports : List (Text × List Text)
  pub default_ports : List (Text × List Text)
  pub port_types : List Text

abbrev pub ports_of : Text → List (Text × List Text) → List Text
ports_of k entries = elim (find (λ e. text_eq e.0 k) entries) [ none ↦ [] | some e ↦ e.1 ]

-- `shownPorts`
abbrev pub shown_ports : List Text → Text
shown_ports list = join (codes ", ") (map replace_colon list)

abbrev pub port_field_of : SettingsDoc → Text → PortField
port_field_of doc k = record {
  service = k;
  shown = shown_ports (ports_of k doc.service_ports);
  ports = shown_ports (ports_of k doc.service_ports);
  saved = shown_ports (ports_of k doc.service_ports);
  default = shown_ports (ports_of k doc.default_ports);
  perr = false;
  pwarn = false;
}

unfoldable pub take_doc : SettingsDoc → Window → Window
take_doc doc w = record w {
  nets = map (λ it. kept (from_server false it)) doc.internal_networks;
  servers = map (λ it. kept (from_server true it)) doc.servers;
  ports = map (port_field_of doc) doc.port_types;
}

unfoldable pub pending_count : Window → ℕ
pending_count w =
    length (pending_items w.nets)
    + length (pending_items w.servers)
    + length (keep is_pending_port w.ports)

-- `{networks: {...}}`; a part that is left out is `none`.
pub record NetworksBody : Type 0 where
  pub internal_networks : Option (List (Content × Text))
  pub servers : Option (List (Content × Text))
  pub service_ports : Option (List (Text × Option (List Text)))

abbrev pub list_if_changed : List Staged → Option (List (Content × Text))
list_if_changed rows = if any (λ e. is_pending e.p) rows then some (list_body rows) else none

abbrev pub ports_if_changed : List PortField → Option (List (Text × Option (List Text)))
ports_if_changed fields =
    let changed = keep is_pending_port fields in
    if is_nil changed then none else some (map (λ f. (f.service, ports_body f.ports)) changed)

-- The request that "Save changes" makes, if any.
unfoldable pub save_body : Window → Option NetworksBody
save_body w =
    if pending_count w == 0 || w.saving || w.readonly
    then none
    else if any (λ f. f.perr) w.ports
    then none
    else some (record {
      internal_networks = list_if_changed w.nets;
      servers = list_if_changed w.servers;
      service_ports = ports_if_changed w.ports;
    })

-- After the answer: what was staged stays if the request failed, and otherwise gives way to the
-- settings that are fetched next; without them the window says so and takes no more changes.
unfoldable pub save_answered : Bool → Option SettingsDoc → Window → Option Window
save_answered false fetched w = some (record w { saving = false })
save_answered true none w = none
save_answered true (some doc) w = some (take_doc doc (record w { saving = false }))

unfoldable pub discard_all : Window → Window
discard_all w = record w {
  nets = discard w.nets;
  servers = discard w.servers;
  ports = map undo_port w.ports;
}
