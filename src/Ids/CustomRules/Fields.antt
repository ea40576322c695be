-- ===== src/Ids/CustomRules/Fields.antt =====
-- client/static/js/ids_win_custom_rules.js: a rule as the server has it and as the form shows it,
-- `blank` and `fromServer`. The order of the optional parts, which is for the display, is left out.
use networkat_cloud_web_app.Prelude.{
  Bool, true, false, not, ◌&&◌, Option, none, some, List, [], ◌∷◌, if◌then◌else◌, is_nil, find,
}
use networkat_cloud_web_app.Prelude.Text.{Text, codes, text_eq}
use networkat_cloud_web_app.Ids.Networks.Fields.{NamedList}

-- `APP`
pub data AppType : Type 0 where
  domain tls_name http_host http_user_agent : AppType

pub data CondType : Type 0 where
  app_layer : AppType → CondType
  source destination ip port protocol : CondType

-- A condition; a field that is missing is `none`.
pub record Condition : Type 0 where
  pub type : CondType
  pub operator : Option Text
  pub value : Option Text
  pub alias_id : Option Text

pub record ServerRule : Type 0 where
  pub id : Text
  pub name : Option Text
  pub severity : Option Text
  pub enabled : Option Bool
  pub conditions : List Condition

-- `r.to`
pub data ToSide : Type 0 where
  to_unset to_addr to_internet to_lan : ToSide

pub record RuleFields : Type 0 where
  pub name : Text
  pub sev : Text
  pub on : Bool
  pub look : AppType
  pub op : Text
  pub site : Text
  pub from : Bool  -- `r.from` is 'addr', or else empty
  pub from_v : Text
  pub to : ToSide
  pub to_v : Text
  pub proto : Text
  pub port : Text

abbrev pub blank : RuleFields
blank = record {
  name = [];
  sev = codes "medium";
  on = true;
  look = domain;
  op = codes "equals";
  site = [];
  from = false;
  from_v = [];
  to = to_unset;
  to_v = [];
  proto = codes "any";
  port = [];
}

pub data RuleKind : Type 0 where
  site_kind addr_kind port_kind : RuleKind

-- `more`: the optional parts that are on.
pub record MoreParts : Type 0 where
  pub from : Bool
  pub to : Bool
  pub port : Bool
  pub site : Bool

pub record CustomRule : Type 0 where
  pub r : RuleFields
  pub kind : RuleKind
  pub more : MoreParts

-- `t || fallback`
abbrev pub text_or : Option Text → Text → Text
text_or none fallback = fallback
text_or (some []) fallback = fallback
text_or (some (c ∷ s)) fallback = c ∷ s

unfoldable pub alias_label : List NamedList → Text → Text
alias_label lists id = elim (find (λ a. text_eq a.id id) lists) [
  | none ↦ id
  | some a ↦ text_or (some a.name) id
]

abbrev pub alias_or : Option Text → Text → (Text → Text) → Text
alias_or none other f = other
alias_or (some []) other f = other
alias_or (some (c ∷ s)) other f = f (c ∷ s)

-- `side`
abbrev pub side_text : List NamedList → Condition → Text
side_text lists c = alias_or c.alias_id (text_or c.value []) (λ id. b'@' ∷ alias_label lists id)

-- What the loop over the conditions has read.
pub record Reading : Type 0 where
  pub r : RuleFields
  pub app : Bool
  pub dest : Bool
  pub port : Bool
  pub src : Bool

abbrev pub is_text : Option Text → Text → Bool
is_text none t = false
is_text (some s) t = text_eq s t

-- An address or an alias, unless the value is one of the two words.
unfoldable pub read_destination : List NamedList → Condition → RuleFields → RuleFields
read_destination lists c r =
    let no_alias = is_nil (text_or c.alias_id []) in
    if no_alias && is_text c.value (codes "internet")
    then record r { to = to_internet }
    else if no_alias && is_text c.value (codes "lan")
    then record r { to = to_lan }
    else record r { to = to_addr; to_v = side_text lists c }

abbrev pub read_as : List NamedList → Condition → CondType → Reading → Reading
read_as lists c (app_layer look) s = record s {
  app = true;
  r = record s.r {
    look = look;
    op = text_or c.operator (codes "equals");
    site = text_or c.value [];
  };
}
read_as lists c source s = record s {
  src = true;
  r = record s.r { from = true; from_v = side_text lists c };
}
read_as lists c destination s = record s { dest = true; r = read_destination lists c s.r }
read_as lists c ip s = record s { dest = true; r = read_destination lists c s.r }
read_as lists c port s = record s { port = true; r = record s.r { port = text_or c.value [] } }
read_as lists c protocol s = record s { r = record s.r { proto = text_or c.value (codes "any") } }

-- The loop.
unfoldable pub read_conditions : List NamedList → List Condition → Reading → Reading
read_conditions lists [] s = s
read_conditions lists (c ∷ cs) s = read_conditions lists cs (read_as lists c c.type s)

abbrev pub is_addr_kind : RuleKind → Bool
is_addr_kind site_kind = false
is_addr_kind addr_kind = true
is_addr_kind port_kind = false

abbrev pub is_site_kind : RuleKind → Bool
is_site_kind site_kind = true
is_site_kind addr_kind = false
is_site_kind port_kind = false

abbrev pub is_port_kind : RuleKind → Bool
is_port_kind site_kind = false
is_port_kind addr_kind = false
is_port_kind port_kind = true

-- The form of what was read.
unfoldable pub form_of_reading : Reading → CustomRule
form_of_reading s =
    let kind : RuleKind = if s.app then site_kind else if s.port then port_kind else addr_kind in
    record {
      r = if is_addr_kind kind && not s.dest then record s.r { to = to_addr } else s.r;
      kind = kind;
      more = record {
        from = s.src;
        to = s.dest && not (is_addr_kind kind);
        port = s.port && not (is_port_kind kind);
        site = false;
      };
    }

unfoldable pub from_server_rule : List NamedList → ServerRule → CustomRule
from_server_rule lists it = form_of_reading (
    read_conditions lists it.conditions (record {
      r = record blank {
        name = text_or it.name [];
        sev = text_or it.severity (codes "medium");
        on = elim it.enabled [ none ↦ true | some b ↦ b ];
      };
      app = false;
      dest = false;
      port = false;
      src = false;
    }))
