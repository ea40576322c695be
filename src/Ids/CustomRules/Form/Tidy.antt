-- ===== src/Ids/CustomRules/Form/Tidy.antt =====
-- The form of a rule over any clicks and typing: its parts, on and off.
use networkat_cloud_web_app.Prelude.{◌≡◌, refl, Bool, true, false, [], if◌then◌else◌}
use networkat_cloud_web_app.Prelude.Text.{Text, codes}
use networkat_cloud_web_app.Ids.CustomRules.Fields.{
  RuleFields, RuleKind, site_kind, addr_kind, port_kind, CustomRule, ToSide, to_unset, to_addr,
  to_internet, to_lan,
}
use networkat_cloud_web_app.Ids.CustomRules.Conditions.{
  site_on, from_on, to_on, port_on, is_to_addr,
}
use networkat_cloud_web_app.Ids.CustomRules.Form.{
  Part, from_option, to_option, port_option, site_option, includes, taken, set_kind, toggle_part,
  Pick, pick_op, pick_sev, pick_proto, pick_look, pick_svc, pick_to, picked_in, Field, name_field,
  site_field, from_field, to_field, port_field, typed_in, clear_cond, is_unset, to_or_addr,
}

-- What the fields of a part hold while it is off; and a destination that is on has a place.
abbrev pub SiteTidy : Bool → Text → Type 0
SiteTidy true site = Unit
SiteTidy false site = site ≡ []

abbrev pub FromTidy : Bool → Bool → Text → Type 0
FromTidy true from from_v = from ≡ true
FromTidy false from from_v = (from ≡ false) × (from_v ≡ [])

abbrev pub ToTidy : Bool → ToSide → Text → Type 0
ToTidy true to to_v = is_unset to ≡ false
ToTidy false to to_v = (to ≡ to_unset) × (to_v ≡ [])

abbrev pub PortTidy : Bool → Text → Text → Type 0
PortTidy true port proto = Unit
PortTidy false port proto = (port ≡ []) × (proto ≡ codes "any")

-- The activity's own part is not among the optional ones, and the four parts.
abbrev pub IsTidy : CustomRule → Type 0
IsTidy fs =
    (includes (taken fs.kind) fs.more ≡ false)
    × SiteTidy (site_on fs) fs.r.site
    × FromTidy (from_on fs) fs.r.from fs.r.from_v
    × ToTidy (to_on fs) fs.r.to fs.r.to_v
    × PortTidy (port_on fs) fs.r.port fs.r.proto

-- A menu or a field is there while its part is on; the menu of places has no empty choice.
abbrev pub IsOffered : CustomRule → Pick → Type 0
IsOffered fs (pick_op v) = site_on fs ≡ true
IsOffered fs (pick_sev v) = Unit
IsOffered fs (pick_proto v) = port_on fs ≡ true
IsOffered fs (pick_look v) = site_on fs ≡ true
IsOffered fs (pick_svc p port) = port_on fs ≡ true
IsOffered fs (pick_to v) = (to_on fs ≡ true) × (is_unset v ≡ false)

abbrev pub IsOpen : CustomRule → Field → Type 0
IsOpen fs name_field = Unit
IsOpen fs site_field = site_on fs ≡ true
IsOpen fs from_field = from_on fs ≡ true
IsOpen fs to_field = to_on fs ≡ true
IsOpen fs port_field = port_on fs ≡ true

abbrev pub IsFree : RuleKind → Part → Type 0
IsFree site_kind site_option = ⊥
IsFree site_kind from_option = Unit
IsFree site_kind to_option = Unit
IsFree site_kind port_option = Unit
IsFree addr_kind site_option = Unit
IsFree addr_kind from_option = Unit
IsFree addr_kind to_option = ⊥
IsFree addr_kind port_option = Unit
IsFree port_kind site_option = Unit
IsFree port_kind from_option = Unit
IsFree port_kind to_option = Unit
IsFree port_kind port_option = ⊥

abbrev form_of : RuleFields → RuleKind → Bool → Bool → Bool → Bool → CustomRule
form_of r kind from to port site = record {
  r = r;
  kind = kind;
  more = record { from = from; to = to; port = port; site = site };
}

to_or_addr_set : (t : ToSide) → is_unset (to_or_addr t) ≡ false
to_or_addr_set to_unset = refl
to_or_addr_set to_addr = refl
to_or_addr_set to_internet = refl
to_or_addr_set to_lan = refl

pub toggle-IsTidy :
    (k : Part) (r : RuleFields) (kind : RuleKind) (f t p s : Bool)
    → IsFree kind k
    → IsTidy (form_of r kind f t p s)
    → IsTidy (toggle_part k (form_of r kind f t p s))
unfolding toggle_part clear_cond
toggle-IsTidy from_option r site_kind true t p s free (a, hs, hf, ht, hp) =
    (a, hs, (refl, refl), ht, hp)
toggle-IsTidy from_option r site_kind false t p s free (a, hs, hf, ht, hp) = (a, hs, refl, ht, hp)
toggle-IsTidy from_option r addr_kind true t p s free (a, hs, hf, ht, hp) =
    (a, hs, (refl, refl), ht, hp)
toggle-IsTidy from_option r addr_kind false t p s free (a, hs, hf, ht, hp) = (a, hs, refl, ht, hp)
toggle-IsTidy from_option r port_kind true t p s free (a, hs, hf, ht, hp) =
    (a, hs, (refl, refl), ht, hp)
toggle-IsTidy from_option r port_kind false t p s free (a, hs, hf, ht, hp) = (a, hs, refl, ht, hp)
toggle-IsTidy to_option r site_kind f true p s free (a, hs, hf, ht, hp) =
    (a, hs, hf, (refl, refl), hp)
toggle-IsTidy to_option r site_kind f false p s free (a, hs, hf, ht, hp) =
    (a, hs, hf, to_or_addr_set r.to, hp)
toggle-IsTidy to_option r addr_kind f t p s free h = absurd free
toggle-IsTidy to_option r port_kind f true p s free (a, hs, hf, ht, hp) =
    (a, hs, hf, (refl, refl), hp)
toggle-IsTidy to_option r port_kind f false p s free (a, hs, hf, ht, hp) =
    (a, hs, hf, to_or_addr_set r.to, hp)
toggle-IsTidy port_option r site_kind f t true s free (a, hs, hf, ht, hp) =
    (a, hs, hf, ht, (refl, refl))
toggle-IsTidy port_option r site_kind f t false s free (a, hs, hf, ht, hp) = (a, hs, hf, ht, tt)
toggle-IsTidy port_option r addr_kind f t true s free (a, hs, hf, ht, hp) =
    (a, hs, hf, ht, (refl, refl))
toggle-IsTidy port_option r addr_kind f t false s free (a, hs, hf, ht, hp) = (a, hs, hf, ht, tt)
toggle-IsTidy port_option r port_kind f t p s free h = absurd free
toggle-IsTidy site_option r site_kind f t p s free h = absurd free
toggle-IsTidy site_option r addr_kind f t p true free (a, hs, hf, ht, hp) = (a, refl, hf, ht, hp)
toggle-IsTidy site_option r addr_kind f t p false free (a, hs, hf, ht, hp) = (a, tt, hf, ht, hp)
toggle-IsTidy site_option r port_kind f t p true free (a, hs, hf, ht, hp) = (a, refl, hf, ht, hp)
toggle-IsTidy site_option r port_kind f t p false free (a, hs, hf, ht, hp) = (a, tt, hf, ht, hp)

pub kind-IsTidy :
    (k : RuleKind) (r : RuleFields) (kind : RuleKind) (f t p s : Bool)
    → IsTidy (form_of r kind f t p s)
    → IsTidy (set_kind k (form_of r kind f t p s))
unfolding set_kind clear_cond
kind-IsTidy site_kind r site_kind f t p s h = h
kind-IsTidy site_kind r addr_kind f true p s (a, hs, hf, ht, hp) = absurd cc
kind-IsTidy site_kind r addr_kind f false p true (a, hs, hf, ht, hp) =
    (refl, tt, hf, (refl, refl), hp)
kind-IsTidy site_kind r addr_kind f false p false (a, hs, hf, ht, hp) =
    (refl, tt, hf, (refl, refl), hp)
kind-IsTidy site_kind r port_kind f t true s (a, hs, hf, ht, hp) = absurd cc
kind-IsTidy site_kind r port_kind f t false true (a, hs, hf, ht, hp) =
    (refl, tt, hf, ht, (refl, refl))
kind-IsTidy site_kind r port_kind f t false false (a, hs, hf, ht, hp) =
    (refl, tt, hf, ht, (refl, refl))
kind-IsTidy addr_kind r site_kind f t p true (a, hs, hf, ht, hp) = absurd cc
kind-IsTidy addr_kind r site_kind f true p false (a, hs, hf, ht, hp) =
    (refl, refl, hf, to_or_addr_set r.to, hp)
kind-IsTidy addr_kind r site_kind f false p false (a, hs, hf, ht, hp) =
    (refl, refl, hf, to_or_addr_set r.to, hp)
kind-IsTidy addr_kind r addr_kind f t p s h = h
kind-IsTidy addr_kind r port_kind f t true s (a, hs, hf, ht, hp) = absurd cc
kind-IsTidy addr_kind r port_kind f true false s (a, hs, hf, ht, hp) =
    (refl, hs, hf, to_or_addr_set r.to, (refl, refl))
kind-IsTidy addr_kind r port_kind f false false s (a, hs, hf, ht, hp) =
    (refl, hs, hf, to_or_addr_set r.to, (refl, refl))
kind-IsTidy port_kind r site_kind f t p true (a, hs, hf, ht, hp) = absurd cc
kind-IsTidy port_kind r site_kind f t true false (a, hs, hf, ht, hp) = (refl, refl, hf, ht, tt)
kind-IsTidy port_kind r site_kind f t false false (a, hs, hf, ht, hp) = (refl, refl, hf, ht, tt)
kind-IsTidy port_kind r addr_kind f true p s (a, hs, hf, ht, hp) = absurd cc
kind-IsTidy port_kind r addr_kind f false true s (a, hs, hf, ht, hp) =
    (refl, hs, hf, (refl, refl), tt)
kind-IsTidy port_kind r addr_kind f false false s (a, hs, hf, ht, hp) =
    (refl, hs, hf, (refl, refl), tt)
kind-IsTidy port_kind r port_kind f t p s h = h

SiteTidy-on : (b : Bool) (site : Text) → b ≡ true → SiteTidy b site
SiteTidy-on true site e = tt
SiteTidy-on false site e = cc

FromTidy-typed : (b from : Bool) (v w : Text) → b ≡ true → FromTidy b from v → FromTidy b from w
FromTidy-typed true from v w e h = h
FromTidy-typed false from v w e h = cc

ToTidy-on : (b : Bool) (to : ToSide) (v : Text) → b ≡ true → is_unset to ≡ false → ToTidy b to v
ToTidy-on true to v e h = h
ToTidy-on false to v e h = cc

ToTidy-typed : (b : Bool) (to : ToSide) (v w : Text) → b ≡ true → ToTidy b to v → ToTidy b to w
ToTidy-typed true to v w e h = h
ToTidy-typed false to v w e h = cc

PortTidy-on : (b : Bool) (port proto : Text) → b ≡ true → PortTidy b port proto
PortTidy-on true port proto e = tt
PortTidy-on false port proto e = cc

pub picked-IsTidy :
    (v : Pick) (fs : CustomRule)
    → IsOffered fs v
    → IsTidy fs
    → IsTidy (record fs { r = picked_in v fs.r })
unfolding picked_in
picked-IsTidy (pick_op v) fs e h = h
picked-IsTidy (pick_sev v) fs e h = h
picked-IsTidy (pick_look v) fs e h = h
picked-IsTidy (pick_proto v) fs e (a, hs, hf, ht, hp) =
    (a, hs, hf, ht, PortTidy-on (port_on fs) fs.r.port v e)
picked-IsTidy (pick_svc p port) fs e (a, hs, hf, ht, hp) =
    (a, hs, hf, ht, PortTidy-on (port_on fs) port p e)
picked-IsTidy (pick_to v) fs (on, set) (a, hs, hf, ht, hp) =
    (a, hs, hf, ToTidy-on (to_on fs) v (if is_to_addr v then fs.r.to_v else []) on set, hp)

pub typed-IsTidy :
    (f : Field) (v : Text) (fs : CustomRule)
    → IsOpen fs f
    → IsTidy fs
    → IsTidy (record fs { r = typed_in f v fs.r })
unfolding typed_in
typed-IsTidy name_field v fs e h = h
typed-IsTidy site_field v fs e (a, hs, hf, ht, hp) = (a, SiteTidy-on (site_on fs) v e, hf, ht, hp)
typed-IsTidy from_field v fs e (a, hs, hf, ht, hp) =
    (a, hs, FromTidy-typed (from_on fs) fs.r.from fs.r.from_v v e hf, ht, hp)
typed-IsTidy to_field v fs e (a, hs, hf, ht, hp) =
    (a, hs, hf, ToTidy-typed (to_on fs) fs.r.to fs.r.to_v v e ht, hp)
typed-IsTidy port_field v fs e (a, hs, hf, ht, hp) =
    (a, hs, hf, ht, PortTidy-on (port_on fs) v fs.r.proto e)
