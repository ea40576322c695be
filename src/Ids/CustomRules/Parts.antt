-- ===== src/Ids/CustomRules/Parts.antt =====
-- What a rule of the server says, and when the form can show it.
use networkat_cloud_web_app.Prelude.{
  ◌≡◌, Bool, true, false, ◌||◌, Option, none, some, List, [], ◌∷◌, ◌++◌, if◌then◌else◌, is_nil,
  find,
}
use networkat_cloud_web_app.Prelude.Text.{Text, codes, text_eq, trim, starts_in, to_lower}
use networkat_cloud_web_app.Prelude.Text.Trimming.{IsTrimmed}
use networkat_cloud_web_app.Ids.Networks.Fields.{NamedList, ok_addr, find_alias}
use networkat_cloud_web_app.Ids.CustomRules.Fields.{
  AppType, CondType, app_layer, source, destination, port, protocol, Condition,
}
use networkat_cloud_web_app.Ids.CustomRules.Conditions.{value_condition, is_user_agent}

-- An address as the server has it, or the id of an alias; a destination can be one of two words.
pub data Side : Type 0 where
  by_value by_alias : Text → Side

pub data Target : Type 0 where
  the_internet the_lan : Target
  at : Side → Target

pub record SiteTest : Type 0 where
  pub look : AppType
  pub op : Text
  pub value : Text

pub record PortTest : Type 0 where
  pub ports : Text
  pub proto : Option Text

-- What a rule of the server says: each condition at most once.
pub record RuleParts : Type 0 where
  pub site : Option SiteTest
  pub from : Option Side
  pub to : Option Target
  pub port : Option PortTest

abbrev pub side_of : CondType → Side → Condition
side_of type (by_value t) = value_condition type (some t)
side_of type (by_alias id) = record {
  type = type;
  operator = none;
  value = none;
  alias_id = some id;
}

abbrev pub site_conditions : Option SiteTest → List Condition
site_conditions none = []
site_conditions (some t) =
    record { type = app_layer t.look; operator = some t.op; value = some t.value; alias_id = none }
    ∷ []

abbrev pub from_conditions : Option Side → List Condition
from_conditions none = []
from_conditions (some s) = side_of source s ∷ []

abbrev pub target_condition : Target → Condition
target_condition the_internet = value_condition destination (some (codes "internet"))
target_condition the_lan = value_condition destination (some (codes "lan"))
target_condition (at s) = side_of destination s

abbrev pub to_conditions : Option Target → List Condition
to_conditions none = []
to_conditions (some t) = target_condition t ∷ []

abbrev pub proto_conditions : Option Text → List Condition
proto_conditions none = []
proto_conditions (some q) = value_condition protocol (some q) ∷ []

abbrev pub port_conditions : Option PortTest → List Condition
port_conditions none = []
port_conditions (some t) = value_condition port (some t.ports) ∷ proto_conditions t.proto

abbrev pub conditions_of : RuleParts → List Condition
conditions_of p =
    site_conditions p.site
    ++ (from_conditions p.from ++ (to_conditions p.to ++ port_conditions p.port))

-- A value that the form takes as it stands, or an alias that is found by its id, and by its name.
abbrev pub IsSide : List NamedList → Side → Type 0
IsSide lists (by_value t) =
    IsTrimmed t
    × (starts_in b'@' t ≡ false)
    × ((text_eq t (codes "lan") || text_eq t (codes "internet") || ok_addr t) ≡ true)
IsSide lists (by_alias id) =
    (is_nil id ≡ false)
    × ((a : NamedList) × (find (λ x. text_eq x.id id) lists ≡ some a)
        × IsTrimmed a.name
        × ((b : NamedList) × (find_alias lists a.name ≡ some b) × (b.id ≡ id)))

abbrev pub IsTarget : List NamedList → Target → Type 0
IsTarget lists the_internet = Unit
IsTarget lists the_lan = Unit
IsTarget lists (at (by_value t)) =
    IsSide lists (by_value t)
    × (text_eq t (codes "internet") ≡ false)
    × (text_eq t (codes "lan") ≡ false)
IsTarget lists (at (by_alias id)) = IsSide lists (by_alias id)

abbrev pub IsSiteTest : SiteTest → Type 0
IsSiteTest t =
    (is_nil t.op ≡ false)
    × ((if is_user_agent t.look then trim t.value else to_lower (trim t.value)) ≡ t.value)

abbrev pub IsProto : Option Text → Type 0
IsProto none = Unit
IsProto (some q) = (is_nil q ≡ false) × (text_eq q (codes "any") ≡ false)

abbrev pub IsPortTest : PortTest → Type 0
IsPortTest t = (trim t.ports ≡ t.ports) × IsProto t.proto

abbrev pub Holds {ℓ} : {A : Type ℓ} → (A → Type 0) → Option A → Type 0
Holds P none = Unit
Holds P (some a) = P a

abbrev pub is_there {ℓ} : {A : Type ℓ} → Option A → Bool
is_there none = false
is_there (some a) = true

-- A rule that the form can show: it looks at a site, a destination or a port; a protocol comes with
-- a port.
pub record IsShown (lists : List NamedList) (p : RuleParts) : Type 0 where
  pub activity : (is_there p.site || is_there p.port || is_there p.to) ≡ true
  pub site : Holds IsSiteTest p.site
  pub from : Holds (IsSide lists) p.from
  pub to : Holds (IsTarget lists) p.to
  pub port : Holds IsPortTest p.port
