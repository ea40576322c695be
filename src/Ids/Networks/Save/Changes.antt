-- ===== src/Ids/Networks/Save/Changes.antt =====
-- `save`: the request, next to the changes of the window.
use networkat_cloud_web_app.Prelude.{◌≡◌, ◌≢◌, ◌⊎◌, Option, none, some, List, [], ◌∷◌, map, keep}
use networkat_cloud_web_app.Prelude.Text.{Text, codes, join}
use networkat_cloud_web_app.Ids.Networks.Ports.{PortField, is_pending_port, ports_body}
use networkat_cloud_web_app.Ids.Networks.Ports.Again.{PortSteps}
use networkat_cloud_web_app.Ids.Networks.Staging.{Content, Item, removed, Staged, kept}

-- The rows that are not removed, in their order, each with its content and its type.
pub data IsLive : List Staged → List (Content × Text) → Type 0 where
  no_rows : IsLive [] []
  row_gone :
      {s : Staged} {ss : List Staged} {list : List (Content × Text)}
      → s.p ≡ removed
      → IsLive ss list
      → IsLive (s ∷ ss) list
  row_there :
      {s : Staged} {ss : List Staged} {list : List (Content × Text)}
      → s.p ≢ removed
      → IsLive ss list
      → IsLive (s ∷ ss) ((s.item.content, s.item.type) ∷ list)

-- A part of the request: left out where the rows are those that were fetched, and otherwise the
-- whole list of the rows that are not removed.
abbrev pub SendsList : List Item → List Staged → Option (List (Content × Text)) → Type 0
SendsList fetched rows part =
    ((part ≡ none) × (rows ≡ map kept fetched))
    ⊎ ((list : List (Content × Text)) × (part ≡ some list)
        × IsLive rows list
        × (rows ≢ map kept fetched))

-- The field of a service as it was fetched, with a default that is a list that can be sent, and then
-- changed.
abbrev pub IsField : PortField → Type 0
IsField g =
    (f : PortField) × PortSteps f g
    × (f.ports ≡ f.saved)
    × ((list : List Text) × (ports_body f.default ≡ some list)
        × (f.default ≡ join (codes ", ") list))

-- The services whose ports changed, in their order, each with the ports that its field has staged.
pub data SentPorts : List PortField → List (Text × Option (List Text)) → Type 0 where
  no_fields : SentPorts [] []
  field_kept :
      {f : PortField} {fs : List PortField} {es : List (Text × Option (List Text))}
      → f.ports ≡ f.saved
      → SentPorts fs es
      → SentPorts (f ∷ fs) es
  field_changed :
      {f : PortField} {fs : List PortField} {es : List (Text × Option (List Text))}
      (list : List Text)
      → f.ports ≢ f.saved
      → f.ports ≡ join (codes ", ") list
      → SentPorts fs es
      → SentPorts (f ∷ fs) ((f.service, some list) ∷ es)

abbrev pub SendsPorts : List PortField → Option (List (Text × Option (List Text))) → Type 0
SendsPorts fields part =
    ((part ≡ none) × SentPorts fields [])
    ⊎ ((es : List (Text × Option (List Text))) × (part ≡ some es) × (es ≢ []) × SentPorts fields es)

abbrev entries_of : List PortField → List (Text × Option (List Text))
entries_of fields = map (λ f. (f.service, ports_body f.ports)) fields

changed_ports : List PortField → List (Text × Option (List Text))
changed_ports fields = entries_of (keep is_pending_port fields)
