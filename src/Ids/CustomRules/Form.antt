-- ===== src/Ids/CustomRules/Form.antt =====
-- client/static/js/ids_win_custom_rules.js, what clicks and typing do to the form of a rule: `setKind`,
-- `clearCond`, the chips of the optional parts, the menus, the suggestions and the fields. The
-- messages at the fields and the menus that are open are left out.
pub mod Tidy
pub mod Steps
use networkat_cloud_web_app.Prelude.{
  Bool, true, false, not, ◌&&◌, Option, none, some, List, [], ◌∷◌, if◌then◌else◌, find,
}
use networkat_cloud_web_app.Prelude.Text.{Text, codes, text_eq}
use networkat_cloud_web_app.Ids.CustomRules.Fields.{
  AppType, ToSide, to_unset, to_addr, to_internet, to_lan, RuleFields, blank, RuleKind, site_kind,
  addr_kind, port_kind, is_addr_kind, is_site_kind, is_port_kind, MoreParts, CustomRule,
}
use networkat_cloud_web_app.Ids.CustomRules.Conditions.{is_user_agent, is_to_addr}

-- `MORE_ALL`
pub data Part : Type 0 where
  from_option to_option port_option site_option : Part

-- `more.includes`
abbrev pub includes : Part → MoreParts → Bool
includes from_option more = more.from
includes to_option more = more.to
includes port_option more = more.port
includes site_option more = more.site

-- A part that is put into `more`, or filtered out of it.
abbrev pub with_part : Part → Bool → MoreParts → MoreParts
with_part from_option on more = record more { from = on }
with_part to_option on more = record more { to = on }
with_part port_option on more = record more { port = on }
with_part site_option on more = record more { site = on }

-- `TAKEN`
abbrev pub taken : RuleKind → Part
taken site_kind = site_option
taken addr_kind = to_option
taken port_kind = port_option

unfoldable pub clear_cond : Part → RuleFields → RuleFields
clear_cond site_option r = record r { site = [] }
clear_cond from_option r = record r { from = false; from_v = [] }
clear_cond to_option r = record r { to = to_unset; to_v = [] }
clear_cond port_option r = record r { port = []; proto = codes "any" }

abbrev pub new_form : CustomRule
new_form = record {
  r = blank;
  kind = site_kind;
  more = record { from = false; to = false; port = false; site = false };
}

abbrev pub same_kind : RuleKind → RuleKind → Bool
same_kind site_kind k = is_site_kind k
same_kind addr_kind k = is_addr_kind k
same_kind port_kind k = is_port_kind k

-- `r.to || 'addr'`, and TCP where the protocol was any.
abbrev pub to_or_addr : ToSide → ToSide
to_or_addr to_unset = to_addr
to_or_addr to_addr = to_addr
to_or_addr to_internet = to_internet
to_or_addr to_lan = to_lan

abbrev pub tcp_for_any : Text → Text
tcp_for_any proto = if text_eq proto (codes "any") then codes "tcp" else proto

-- What is filled in where the kind or a part is switched on.
abbrev pub kind_defaults : RuleKind → RuleFields → RuleFields
kind_defaults site_kind r = r
kind_defaults addr_kind r = record r { to = to_or_addr r.to }
kind_defaults port_kind r = record r { proto = tcp_for_any r.proto }

abbrev pub part_defaults : Part → RuleFields → RuleFields
part_defaults from_option r = record r { from = true }
part_defaults to_option r = record r { to = to_or_addr r.to }
part_defaults port_option r = record r { proto = tcp_for_any r.proto }
part_defaults site_option r = r

unfoldable pub set_kind : RuleKind → CustomRule → CustomRule
set_kind k fs = if same_kind fs.kind k then fs else record {
  r =
      kind_defaults k
        (if includes (taken fs.kind) fs.more then fs.r else clear_cond (taken fs.kind) fs.r);
  kind = k;
  more = with_part (taken k) false fs.more;
}

-- The chip of an optional part.
unfoldable pub toggle_part : Part → CustomRule → CustomRule
toggle_part k fs =
    if includes k fs.more
    then record fs { r = clear_cond k fs.r; more = with_part k false fs.more }
    else record fs { r = part_defaults k fs.r; more = with_part k true fs.more }

-- `d.pick`, `d.sv` and `d.proto`
pub data Pick : Type 0 where
  pick_op pick_sev pick_proto : Text → Pick
  pick_look : AppType → Pick
  pick_svc : Text → Text → Pick
  pick_to : ToSide → Pick

unfoldable pub picked_in : Pick → RuleFields → RuleFields
picked_in (pick_op v) r = record r { op = v }
picked_in (pick_sev v) r = record r { sev = v }
picked_in (pick_proto v) r = record r { proto = v }
picked_in (pick_look v) r = record r {
  look = v;
  op = if is_user_agent v && text_eq r.op (codes "ends_with") then codes "equals" else r.op;
}
picked_in (pick_svc p port) r = record r { proto = p; port = port }
picked_in (pick_to v) r = record r { to = v; to_v = if is_to_addr v then r.to_v else [] }

pub data Field : Type 0 where
  name_field site_field from_field to_field port_field : Field

unfoldable pub typed_in : Field → Text → RuleFields → RuleFields
typed_in name_field v r = record r { name = v }
typed_in site_field v r = record r { site = v }
typed_in from_field v r = record r { from_v = v }
typed_in to_field v r = record r { to_v = v }
typed_in port_field v r = record r { port = v }

-- A suggestion: what it says of a site (with its operator) and of a port (with its protocol).
pub record Suggestion : Type 0 where
  pub name : Text
  pub sev : Text
  pub site : Option (Text × Text)
  pub port : Option (Text × Text)
  pub from : Bool
  pub to : ToSide

abbrev pub site_suggestion : Text → Text → Text → Suggestion
site_suggestion name sev site = record {
  name = name;
  sev = sev;
  site = some (site, codes "ends_with");
  port = none;
  from = false;
  to = to_unset;
}

abbrev pub port_suggestion : Text → Text → Text → Text → Suggestion
port_suggestion name sev proto port = record {
  name = name;
  sev = sev;
  site = none;
  port = some (port, proto);
  from = false;
  to = to_internet;
}

-- `SUGG`
unfoldable pub suggestions : List Suggestion
suggestions =
    site_suggestion (codes "Gambling sites") (codes "medium") (codes "bet365.com")
    ∷ site_suggestion (codes "Phishing login page") (codes "high") (codes "evil-login.com")
    ∷ site_suggestion (codes "Crypto mining pool") (codes "high") (codes "nanopool.org")
    ∷ site_suggestion (codes "File sharing upload") (codes "low") (codes "wetransfer.com")
    ∷ port_suggestion (codes "Remote desktop to the internet") (codes "high") (codes "tcp")
        (codes "3389")
    ∷ port_suggestion (codes "SSH to the internet") (codes "medium") (codes "tcp") (codes "22")
    ∷ site_suggestion (codes "TeamViewer or AnyDesk") (codes "medium") (codes "teamviewer.com")
    ∷ port_suggestion (codes "Tor network") (codes "high") (codes "tcp") (codes "9001")
    ∷ port_suggestion (codes "Unapproved VPN") (codes "medium") (codes "udp") (codes "1194")
    ∷ record {
      name = codes "Camera calling home";
      sev = codes "low";
      site = none;
      port = none;
      from = true;
      to = to_internet;
    }
    ∷ port_suggestion (codes "Outside DNS server") (codes "medium") (codes "udp") (codes "53")
    ∷ port_suggestion (codes "Direct mail sending") (codes "medium") (codes "tcp") (codes "25")
    ∷ []

abbrev pub is_unset : ToSide → Bool
is_unset to_unset = true
is_unset to_addr = false
is_unset to_internet = false
is_unset to_lan = false

abbrev pub suggested_kind : Suggestion → RuleKind
suggested_kind t = elim t.site [
  | some site ↦ site_kind
  | none ↦ elim t.port [ some port ↦ port_kind | none ↦ addr_kind ]
]

-- The form of a suggestion; the switch of the rule stays.
unfoldable pub suggested_form : Suggestion → Bool → CustomRule
suggested_form t on = record {
  r = record blank {
    name = t.name;
    on = on;
    sev = t.sev;
    site = elim t.site [ none ↦ [] | some s ↦ s.0 ];
    op = elim t.site [ none ↦ codes "equals" | some s ↦ s.1 ];
    port = elim t.port [ none ↦ [] | some q ↦ q.0 ];
    proto = elim t.port [ none ↦ codes "any" | some q ↦ q.1 ];
    from = t.from;
    to = t.to;
  };
  kind = suggested_kind t;
  more = record {
    from = t.from;
    to = not (is_unset t.to) && not (is_addr_kind (suggested_kind t));
    port = false;
    site = false;
  };
}

-- The names of the suggestions are all different.
unfoldable pub apply_sugg : Text → CustomRule → CustomRule
apply_sugg name fs = elim (find (λ t. text_eq t.name name) suggestions) [
  | none ↦ fs
  | some t ↦ suggested_form t fs.r.on
]
