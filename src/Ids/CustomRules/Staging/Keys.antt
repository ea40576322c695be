-- ===== src/Ids/CustomRules/Staging/Keys.antt =====
-- `fsKey`: two forms with the same key, and the requests they make.
use networkat_cloud_web_app.Prelude.{
  arith, ◌≡◌, refl, sym, ◌∙◌, ap, ap₂, ◌⊎◌, Bool, true, false, ◌&&◌, Option, none, some, List, [],
  ◌∷◌, ◌++◌, if◌then◌else◌, Bool-cases, inl, inr,
}
use networkat_cloud_web_app.Prelude.Text.{Text, codes, text_eq, trim, to_lower}
use networkat_cloud_web_app.Prelude.Text.Laws.{text_eq_iff}
use networkat_cloud_web_app.Firewall.Order.Laws.{some-injective}
use networkat_cloud_web_app.Ids.Networks.Fields.{NamedList}
use networkat_cloud_web_app.Ids.CustomRules.Fields.{
  AppType, domain, tls_name, http_host, http_user_agent, CondType, source, destination, ToSide,
  to_unset, to_addr, to_internet, to_lan, RuleFields, CustomRule,
}
use networkat_cloud_web_app.Ids.CustomRules.Conditions.{
  site_on, from_on, to_on, port_on, is_to_addr, to_text, is_user_agent, resolve, side_condition,
  site_part, to_part, port_part, conditions,
}
use networkat_cloud_web_app.Ids.CustomRules.Staging.{
  app_text, site_key, from_key, to_key, port_key, same_texts, same_part, same_bool, same_rule,
}

same_texts-eq : (ss ts : List Text) → same_texts ss ts ≡ true → ss ≡ ts
same_texts-eq [] [] h = refl
same_texts-eq [] (t ∷ ts) h = cc
same_texts-eq (s ∷ ss) [] h = cc
same_texts-eq (s ∷ ss) (t ∷ ts) h =
    ap₂ ◌∷◌ ((text_eq_iff s t).0 (ground (arith, h))) (same_texts-eq ss ts (ground (arith, h)))

same_part-eq : (x y : Option (List Text)) → same_part x y ≡ true → x ≡ y
same_part-eq none none h = refl
same_part-eq none (some ts) h = cc
same_part-eq (some ss) none h = cc
same_part-eq (some ss) (some ts) h = ap some (same_texts-eq ss ts h)

same_bool-eq : (a b : Bool) → same_bool a b ≡ true → a ≡ b
same_bool-eq true b h = sym h
same_bool-eq false true h = cc
same_bool-eq false false h = refl

both : (x y : Bool) → (x && y) ≡ true → (x ≡ true) × (y ≡ true)
both true y h = (refl, h)
both false y h = cc

-- A part and its key: they are there together.
part-eq :
    {K C : Type 0} (x y : Bool) (j k : K) (c d : List C)
    → (j ≡ k → c ≡ d)
    → (if x then some j else none) ≡ (if y then some k else none)
    → (if x then c else []) ≡ (if y then d else [])
part-eq true true j k c d step e = step (some-injective e)
part-eq true false j k c d step e = cc
part-eq false true j k c d step e = cc
part-eq false false j k c d step e = refl

-- `APP` and the places are told apart by their words.
app_of : Text → AppType
app_of t =
    if text_eq t (codes "domain")
    then domain
    else if text_eq t (codes "tls_name")
    then tls_name
    else if text_eq t (codes "http_host")
    then http_host
    else http_user_agent

app_of-app_text : (a : AppType) → app_of (app_text a) ≡ a
unfolding app_of text_eq
app_of-app_text domain = refl
app_of-app_text tls_name = refl
app_of-app_text http_host = refl
app_of-app_text http_user_agent = refl

to_of : Text → ToSide
to_of t =
    if text_eq t (codes "addr")
    then to_addr
    else if text_eq t (codes "internet")
    then to_internet
    else if text_eq t (codes "lan")
    then to_lan
    else to_unset

to_of-to_text : (a : ToSide) → to_of (to_text a) ≡ a
unfolding to_of text_eq
to_of-to_text to_unset = refl
to_of-to_text to_addr = refl
to_of-to_text to_internet = refl
to_of-to_text to_lan = refl

app_text-injective : (a b : AppType) → app_text a ≡ app_text b → a ≡ b
app_text-injective a b e = sym (app_of-app_text a) ∙ ap app_of e ∙ app_of-app_text b

to_text-injective : (a b : ToSide) → to_text a ≡ to_text b → a ≡ b
to_text-injective a b e = sym (to_of-to_text a) ∙ ap to_of e ∙ to_of-to_text b

first : {s t : Text} → s ∷ [] ≡ t ∷ [] → s ≡ t
first e = cc

second : {s t u v : Text} → s ∷ t ∷ [] ≡ u ∷ v ∷ [] → t ≡ v
second e = cc

resolve-trim :
    (lists : List NamedList) (v w : Text) → trim v ≡ trim w → resolve lists v ≡ resolve lists w
unfolding resolve
resolve-trim lists v w e = rw (resolve, e) refl

side_condition-trim :
    (lists : List NamedList) (type : CondType) (v w : Text)
    → trim v ≡ trim w
    → side_condition lists type v ≡ side_condition lists type w
unfolding side_condition
side_condition-trim lists type v w e = rw (side_condition, resolve-trim lists v w e) refl

site_part-eq :
    (a b : RuleFields)
    → (is_user_agent a.look ≡ false) ⊎ (trim a.site ≡ trim b.site)
    → app_text a.look ∷ a.op ∷ to_lower (trim a.site) ∷ []
      ≡ app_text b.look ∷ b.op ∷ to_lower (trim b.site) ∷ []
    → site_part a ≡ site_part b
unfolding site_part
site_part-eq a b case e =
    let is_look : a.look ≡ b.look = app_text-injective a.look b.look cc in
    let op : a.op ≡ b.op = cc in
    let lower : to_lower (trim a.site) ≡ to_lower (trim b.site) = cc in
    elim case [
      | inl plain ↦
          let also : is_user_agent b.look ≡ false = ap is_user_agent (sym is_look) ∙ plain in
          rw (plain, also) (rw (is_look, op, lower) refl)
      | inr same ↦ rw (is_look, same, op) refl
    ]

to_part-eq :
    (lists : List NamedList) (a b : RuleFields)
    → to_text a.to ∷ (if is_to_addr a.to then trim a.to_v else []) ∷ []
      ≡ to_text b.to ∷ (if is_to_addr b.to then trim b.to_v else []) ∷ []
    → to_part lists a ≡ to_part lists b
unfolding to_part
to_part-eq lists a b e =
    let is_to : a.to ≡ b.to = to_text-injective a.to b.to cc in
    elim (Bool-cases (is_to_addr b.to)) [
      | inl at ↦
          let here : is_to_addr a.to ≡ true = ap is_to_addr is_to ∙ at in
          let same : trim a.to_v ≡ trim b.to_v = second (rw (here, at) at e) in
          rw (here, at)
            (ap (λ c. c ∷ []) (side_condition-trim lists destination a.to_v b.to_v same))
      | inr word ↦
          let also : is_to_addr a.to ≡ false = ap is_to_addr is_to ∙ word in
          rw (also, word) (rw is_to refl)
    ]

port_part-eq :
    (a b : RuleFields)
    → a.proto ∷ trim a.port ∷ [] ≡ b.proto ∷ trim b.port ∷ []
    → port_part a ≡ port_part b
unfolding port_part
port_part-eq a b e =
    let same : a.proto ≡ b.proto = cc in
    let port : trim a.port ≡ trim b.port = cc in rw (same, port) refl

-- If two forms have the same key, and they look for something else than a user agent or for the same
-- text up to its ends, they have the same name but for its ends, the same severity and switch, and
-- make the same conditions, whatever the aliases.
pub same_rule-conditions :
    (lists : List NamedList) (a b : CustomRule)
    → same_rule a b ≡ true
    → (is_user_agent a.r.look ≡ false) ⊎ (trim a.r.site ≡ trim b.r.site)
    → (trim a.r.name ≡ trim b.r.name)
      × (a.r.sev ≡ b.r.sev)
      × (a.r.on ≡ b.r.on)
      × (conditions lists a ≡ conditions lists b)
unfolding same_rule conditions
same_rule-conditions lists a b h case =
    let (h, h_port) = both _ (same_part (port_key a) (port_key b)) h in
    let (h, h_to) = both _ (same_part (to_key a) (to_key b)) h in
    let (h, h_from) = both _ (same_part (from_key a) (from_key b)) h in
    let (h, h_site) = both _ (same_part (site_key a) (site_key b)) h in
    let (h, on) = both _ (same_bool a.r.on b.r.on) h in
    let (name, sev) = both _ (text_eq a.r.sev b.r.sev) h in
    let site : site_key a ≡ site_key b = same_part-eq (site_key a) (site_key b) h_site in
    let from : from_key a ≡ from_key b = same_part-eq (from_key a) (from_key b) h_from in
    let to : to_key a ≡ to_key b = same_part-eq (to_key a) (to_key b) h_to in
    let port : port_key a ≡ port_key b = same_part-eq (port_key a) (port_key b) h_port in
    (
      (text_eq_iff (trim a.r.name) (trim b.r.name)).0 name,
      (text_eq_iff a.r.sev b.r.sev).0 sev,
      same_bool-eq a.r.on b.r.on on,
      ap₂ ◌++◌
          (part-eq (site_on a) (site_on b) _ _ (site_part a.r) (site_part b.r)
            (site_part-eq a.r b.r case) site)
          (ap₂ ◌++◌
            (part-eq (from_on a) (from_on b) _ _ (side_condition lists source a.r.from_v ∷ [])
              (side_condition lists source b.r.from_v ∷ [])
              (λ e.
                ap (λ c. c ∷ []) (side_condition-trim lists source a.r.from_v b.r.from_v (first e)))
              from)
            (ap₂ ◌++◌
              (part-eq (to_on a) (to_on b) _ _ (to_part lists a.r) (to_part lists b.r)
                (to_part-eq lists a.r b.r) to)
              (part-eq (port_on a) (port_on b) _ _ (port_part a.r) (port_part b.r)
                (port_part-eq a.r b.r) port))),
    )
