-- ===== src/Ids/CustomRules/Reading.antt =====
-- `fromServer`: what the loop over the conditions reads.
use networkat_cloud_web_app.Prelude.{
  ◌≡◌, refl, ◌∙◌, ap, true, false, Option, none, some, List, [], ◌∷◌, ◌++◌, if◌then◌else◌,
}
use networkat_cloud_web_app.Prelude.Text.{Text, codes, text_eq}
use networkat_cloud_web_app.Ids.Networks.Fields.{NamedList}
use networkat_cloud_web_app.Ids.CustomRules.Fields.{
  AppType, source, destination, Condition, ToSide, to_addr, to_internet, to_lan, RuleFields,
  text_or, side_text, Reading, read_destination, read_conditions, read_as,
}
use networkat_cloud_web_app.Ids.CustomRules.Conditions.{value_condition}
use networkat_cloud_web_app.Ids.CustomRules.Parts.{
  Side, by_value, by_alias, Target, the_internet, the_lan, at, SiteTest, PortTest, RuleParts,
  side_of, site_conditions, from_conditions, to_conditions, port_conditions, conditions_of,
  IsTarget, Holds, is_there,
}

-- What the loop has read after each part.
module _ (lists : List NamedList) where
  abbrev pub to_side : Option Target → ToSide → ToSide
  to_side none side = side
  to_side (some the_internet) side = to_internet
  to_side (some the_lan) side = to_lan
  to_side (some (at s)) side = to_addr

  abbrev pub to_v_of : Option Target → Text → Text
  to_v_of none v = v
  to_v_of (some the_internet) v = v
  to_v_of (some the_lan) v = v
  to_v_of (some (at s)) v = side_text lists (side_of destination s)

  abbrev pub from_v_of : Option Side → Text → Text
  from_v_of none v = v
  from_v_of (some s) v = side_text lists (side_of source s)

  abbrev pub look_of : Option SiteTest → AppType → AppType
  look_of none look = look
  look_of (some t) look = t.look

  abbrev pub op_of : Option SiteTest → Text → Text
  op_of none op = op
  op_of (some t) op = text_or (some t.op) (codes "equals")

  abbrev pub site_of : Option SiteTest → Text → Text
  site_of none site = site
  site_of (some t) site = text_or (some t.value) []

  abbrev pub ports_of_test : Option PortTest → Text → Text
  ports_of_test none ports = ports
  ports_of_test (some t) ports = text_or (some t.ports) []

  abbrev pub proto_of : Option PortTest → Text → Text
  proto_of none proto = proto
  proto_of (some t) proto = elim t.proto [ none ↦ proto | some q ↦ text_or (some q) (codes "any") ]

  abbrev pub after_site : Option SiteTest → Reading → Reading
  after_site t s = record s {
    app = if is_there t then true else s.app;
    r = record s.r { look = look_of t s.r.look; op = op_of t s.r.op; site = site_of t s.r.site };
  }

  abbrev pub after_from : Option Side → Reading → Reading
  after_from t s = record s {
    src = if is_there t then true else s.src;
    r = record s.r {
      from = if is_there t then true else s.r.from;
      from_v = from_v_of t s.r.from_v;
    };
  }

  abbrev pub after_to : Option Target → Reading → Reading
  after_to t s = record s {
    dest = if is_there t then true else s.dest;
    r = record s.r { to = to_side t s.r.to; to_v = to_v_of t s.r.to_v };
  }

  abbrev pub after_port : Option PortTest → Reading → Reading
  after_port t s = record s {
    port = if is_there t then true else s.port;
    r = record s.r { port = ports_of_test t s.r.port; proto = proto_of t s.r.proto };
  }

  read-append :
      (xs ys : List Condition) (s : Reading)
      → read_conditions lists (xs ++ ys) s ≡ read_conditions lists ys (read_conditions lists xs s)
  unfolding read_conditions
  read-append [] ys s = refl
  read-append (x ∷ xs) ys s = read-append xs ys (read_as lists x x.type s)

  read-site :
      (t : Option SiteTest) (s : Reading)
      → read_conditions lists (site_conditions t) s ≡ after_site t s
  unfolding read_conditions
  read-site none s = refl
  read-site (some t) s = refl

  read-from :
      (t : Option Side) (s : Reading) → read_conditions lists (from_conditions t) s ≡ after_from t s
  unfolding read_conditions
  read-from none s = refl
  read-from (some (by_value t)) s = refl
  read-from (some (by_alias id)) s = refl

  read-port :
      (t : Option PortTest) (s : Reading)
      → read_conditions lists (port_conditions t) s ≡ after_port t s
  unfolding read_conditions
  read-port none s = refl
  read-port (some t) s = go t.ports t.proto s
    where
      go :
          (ports : Text) (proto : Option Text) (s : Reading)
          → (let t : PortTest = record { ports = ports; proto = proto } in
              read_conditions lists (port_conditions (some t)) s ≡ after_port (some t) s)
      go ports none s = refl
      go ports (some q) s = refl

  read_value :
      (t : Text) (r : RuleFields)
      → text_eq t (codes "internet") ≡ false
      → text_eq t (codes "lan") ≡ false
      → read_destination lists (value_condition destination (some t)) r
        ≡ record r { to = to_addr; to_v = side_text lists (side_of destination (by_value t)) }
  unfolding read_destination
  read_value t r not_internet not_lan = rw (read_destination, not_internet, not_lan) refl

  read-to :
      (t : Option Target) (s : Reading)
      → Holds (IsTarget lists) t
      → read_conditions lists (to_conditions t) s ≡ after_to t s
  unfolding read_conditions read_destination text_eq
  read-to none s h = refl
  read-to (some the_internet) s h = refl
  read-to (some the_lan) s h = refl
  read-to (some (at (by_value t))) s (side, not_internet, not_lan) =
      ap (λ r. record s { dest = true; r = r }) (read_value t s.r not_internet not_lan)
  read-to (some (at (by_alias []))) s (full, h) = cc
  read-to (some (at (by_alias (c ∷ id)))) s h = refl

  -- The whole loop.
  abbrev pub read_parts : RuleParts → Reading → Reading
  read_parts p s = after_port p.port (after_to p.to (after_from p.from (after_site p.site s)))

  pub read_conditions_lem :
      (p : RuleParts) (s : Reading)
      → Holds (IsTarget lists) p.to
      → read_conditions lists (conditions_of p) s ≡ read_parts p s
  read_conditions_lem p s h =
      let s₁ = after_site p.site s in
      let s₂ = after_from p.from s₁ in
      let s₃ = after_to p.to s₂ in
      read-append (site_conditions p.site)
        (from_conditions p.from ++ (to_conditions p.to ++ port_conditions p.port)) s
      ∙ ap
          (read_conditions lists
            (from_conditions p.from ++ (to_conditions p.to ++ port_conditions p.port)))
          (read-site p.site s)
      ∙ read-append (from_conditions p.from) (to_conditions p.to ++ port_conditions p.port) s₁
      ∙ ap (read_conditions lists (to_conditions p.to ++ port_conditions p.port))
          (read-from p.from s₁)
      ∙ read-append (to_conditions p.to) (port_conditions p.port) s₂
      ∙ ap (read_conditions lists (port_conditions p.port)) (read-to p.to s₂ h)
      ∙ read-port p.port s₃
