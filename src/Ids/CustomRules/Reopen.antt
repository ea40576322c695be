-- ===== src/Ids/CustomRules/Reopen.antt =====
-- `fromServer` and `conditions`: a fetched rule, read into a form and sent.
use networkat_cloud_web_app.Prelude.{
  ◌≡◌, refl, sym, ◌∙◌, ap, ap₂, Bool, true, false, ◌||◌, Option, none, some, List, [], ◌∷◌, ◌++◌,
  if◌then◌else◌, is_nil, arith,
}
use networkat_cloud_web_app.Prelude.Text.{Text, codes, is_space, text_eq, trim, join}
use networkat_cloud_web_app.Prelude.Text.Trimming.{IsTrimmed, join-IsTrimmed}
use networkat_cloud_web_app.Ids.Networks.Fields.{NamedList, find_alias}
use networkat_cloud_web_app.Ids.CustomRules.Fields.{
  AppType, CondType, source, destination, ServerRule, ToSide, to_addr, RuleFields, blank, text_or,
  alias_label, side_text, Reading, read_conditions, form_of_reading, from_server_rule,
}
use networkat_cloud_web_app.Ids.CustomRules.Conditions.{
  a_value, an_alias, resolve, side_condition, site_part, to_part, port_part, conditions,
}
use networkat_cloud_web_app.Ids.CustomRules.Checks.{switched_conditions}
use networkat_cloud_web_app.Ids.CustomRules.Parts.{
  Side, by_value, by_alias, Target, the_internet, the_lan, at, SiteTest, PortTest, RuleParts,
  side_of, site_conditions, from_conditions, to_conditions, port_conditions, conditions_of, IsSide,
  IsTarget, IsSiteTest, IsProto, IsPortTest, Holds, is_there, IsShown,
}
use networkat_cloud_web_app.Ids.CustomRules.Reading.{
  to_side, to_v_of, from_v_of, look_of, op_of, site_of, ports_of_test, proto_of, read_parts,
  read_conditions_lem,
}

pub text_or_full : (t f : Text) → is_nil t ≡ false → text_or (some t) f ≡ t
text_or_full [] f h = cc
text_or_full (c ∷ t) f h = refl

pub text_or_nil : (t : Text) → text_or (some t) [] ≡ t
text_or_nil [] = refl
text_or_nil (c ∷ t) = refl

at-IsTrimmed : (w : Text) → IsTrimmed w → IsTrimmed (b'@' ∷ w)
unfolding join
at-IsTrimmed w h =
    join-IsTrimmed [] (b'@' ∷ []) (w ∷ []) ((unfold trim is_space in refl, refl), (h, tt))

-- The text of a side, resolved, is the side.
resolve_value :
    (lists : List NamedList) (t : Text) → IsSide lists (by_value t) → resolve lists t ≡ a_value t
unfolding resolve
resolve_value lists t ((trimmed, full), plain, fine) = rw (trimmed, full, plain, fine) refl

resolve_name :
    (lists : List NamedList) (name : Text) (b : NamedList)
    → IsTrimmed name
    → find_alias lists name ≡ some b
    → resolve lists (b'@' ∷ name) ≡ an_alias b.id
unfolding resolve
resolve_name lists name b h found =
    let (trimmed, full) = at-IsTrimmed name h in
    let found' : find_alias lists (trim name) ≡ some b = rw h.0 found in rw (trimmed, found') refl

pub side_condition-side_text :
    (lists : List NamedList) (type : CondType) (s : Side)
    → IsSide lists s
    → side_condition lists type (side_text lists (side_of type s)) ≡ side_of type s
unfolding side_condition alias_label
side_condition-side_text lists type (by_value t) h =
    rw (text_or_nil t, side_condition, resolve_value lists t h) refl
side_condition-side_text lists type (by_alias []) (full, h) = cc
side_condition-side_text lists type (by_alias (c ∷ s))
      (full, (a, found, named, (b, by_name, same))) =
    let label : alias_label lists (c ∷ s) ≡ a.name =
      rw (alias_label, found) (text_or_full a.name (c ∷ s) named.1) in
    rw (label, side_condition, resolve_name lists a.name b named by_name, same) refl

module _ (lists : List NamedList) where
  -- The conditions of the form of a reading, part by part.
  form_of_reading_conditions :
      (s : Reading)
      → (s.app || s.port || s.dest) ≡ true
      → conditions lists (form_of_reading s)
        ≡ (if s.app then site_part s.r else [])
          ++ ((if s.src then side_condition lists source s.r.from_v ∷ [] else [])
              ++ ((if s.dest then to_part lists s.r else [])
                  ++ (if s.port then port_part s.r else [])))
  unfolding conditions form_of_reading
  form_of_reading_conditions s h = go s.app s.port s.dest h
    where
      go :
          (app port dest : Bool)
          → (app || port || dest) ≡ true
          → (let t : Reading = record s { app = app; port = port; dest = dest } in
              conditions lists (form_of_reading t)
              ≡ (if app then site_part s.r else [])
                ++ ((if s.src then side_condition lists source s.r.from_v ∷ [] else [])
                    ++ ((if dest then to_part lists s.r else [])
                        ++ (if port then port_part s.r else []))))
      go true true true h = refl
      go true true false h = refl
      go true false true h = refl
      go true false false h = refl
      go false true true h = refl
      go false true false h = refl
      go false false true h = refl
      go false false false h = cc

  -- Each part of the conditions is the one that was read.
  abbrev set : Bool → Bool
  set there = if there then true else false

  site_part-site :
      (t : Option SiteTest) (r : RuleFields) (look : AppType) (op site : Text)
      → Holds IsSiteTest t
      → r.look ≡ look_of lists t look
      → r.op ≡ op_of lists t op
      → r.site ≡ site_of lists t site
      → (if set (is_there t) then site_part r else []) ≡ site_conditions t
  unfolding site_part
  site_part-site none r look op site h is_look is_op is_site = refl
  site_part-site (some t) r look op site (full, fits) is_look is_op is_site =
      rw
        (
          is_look,
          is_op,
          is_site,
          text_or_full t.op (codes "equals") full,
          text_or_nil t.value,
          fits,
        )
        refl

  from_part-from :
      (t : Option Side) (v w : Text)
      → Holds (IsSide lists) t
      → v ≡ from_v_of lists t w
      → (if set (is_there t) then side_condition lists source v ∷ [] else []) ≡ from_conditions t
  from_part-from none v w h e = refl
  from_part-from (some s) v w h e =
      ap (λ u. side_condition lists source u ∷ []) e
      ∙ ap (λ c. c ∷ []) (side_condition-side_text lists source s h)

  to_part-at :
      (s : Side) (r : RuleFields)
      → IsSide lists s
      → r.to ≡ to_addr
      → r.to_v ≡ side_text lists (side_of destination s)
      → to_part lists r ≡ side_of destination s ∷ []
  unfolding to_part
  to_part-at s r h is_to is_v =
      rw (is_to, is_v, side_condition-side_text lists destination s h) refl

  to_part-to :
      (t : Option Target) (r : RuleFields) (to : ToSide) (v : Text)
      → Holds (IsTarget lists) t
      → r.to ≡ to_side lists t to
      → r.to_v ≡ to_v_of lists t v
      → (if set (is_there t) then to_part lists r else []) ≡ to_conditions t
  unfolding to_part
  to_part-to none r to v h is_to is_v = refl
  to_part-to (some the_internet) r to v h is_to is_v = rw is_to refl
  to_part-to (some the_lan) r to v h is_to is_v = rw is_to refl
  to_part-to (some (at (by_value t))) r to v (side, _, _) is_to is_v =
      to_part-at (by_value t) r side is_to is_v
  to_part-to (some (at (by_alias id))) r to v side is_to is_v =
      to_part-at (by_alias id) r side is_to is_v

  port_part-port :
      (t : Option PortTest) (r : RuleFields) (ports : Text)
      → Holds IsPortTest t
      → r.port ≡ ports_of_test lists t ports
      → r.proto ≡ proto_of lists t (codes "any")
      → (if set (is_there t) then port_part r else []) ≡ port_conditions t
  unfolding port_part text_eq
  port_part-port none r ports h is_port is_proto = refl
  port_part-port (some t) r ports (trimmed, proto) is_port is_proto =
      go t.ports t.proto trimmed proto is_port is_proto
    where
      go :
          (u : Text) (q : Option Text)
          → trim u ≡ u
          → IsProto q
          → r.port ≡ text_or (some u) []
          → (let t : PortTest = record { ports = u; proto = q } in
              r.proto ≡ proto_of lists (some t) (codes "any")
              → port_part r ≡ port_conditions (some t))
      go u none trimmed proto is_port is_proto = rw (is_proto, is_port, text_or_nil u, trimmed) refl
      go u (some q) trimmed (full, one) is_port is_proto =
          rw (is_proto, is_port, text_or_nil u, trimmed, text_or_full q (codes "any") full, one)
            refl

-- The switch of a rule that the form can show sends the conditions that were fetched, in their
-- order, although it reads them into a form and makes them again. The form can show a rule if it
-- has each kind of condition at most once, in the order of the form; looks at a site, at a
-- destination or at a port; has a protocol, which is not "any", only with a port; has its texts as
-- the form leaves them, trimmed and a site in lower case, with an operator; and if its addresses
-- pass the check of the form and its aliases are found by their ids and again by their names.
pub switched_conditions_lem :
    (lists : List NamedList) (it : ServerRule) (p : RuleParts)
    → it.conditions ≡ conditions_of p
    → IsShown lists p
    → switched_conditions lists it ≡ it.conditions
unfolding switched_conditions from_server_rule
switched_conditions_lem lists it p are h =
    let r₀ : RuleFields = record blank {
      name = text_or it.name [];
      sev = text_or it.severity (codes "medium");
      on = elim it.enabled [ none ↦ true | some b ↦ b ];
    } in
    let start : Reading = record { r = r₀; app = false; dest = false; port = false; src = false } in
    let s = read_parts lists p start in
    let read : read_conditions lists it.conditions start ≡ s =
      ap (λ cs. read_conditions lists cs start) are ∙ read_conditions_lem lists p start h.to in
    ap (λ x. conditions lists (form_of_reading x)) read
    ∙ form_of_reading_conditions lists s (ground (arith, h.activity))
    ∙ ap₂ ◌++◌
        (site_part-site lists p.site s.r blank.look blank.op blank.site h.site refl refl refl)
        (ap₂ ◌++◌ (from_part-from lists p.from s.r.from_v blank.from_v h.from refl) (
          ap₂ ◌++◌ (to_part-to lists p.to s.r blank.to blank.to_v h.to refl refl)
            (port_part-port lists p.port s.r blank.port h.port refl refl)))
    ∙ sym are
