-- ===== src/Ids/CustomRules/Complete.antt =====
-- `staged`: the conditions of a form that passes the checks.
use networkat_cloud_web_app.Prelude.{
  ℕ, ◌+◌, ◌≡◌, ◌≤◌, refl, subst, ◌⊎◌, Bool, true, false, not, ◌&&◌, ◌||◌, some, List, [], ◌∷◌, ◌++◌,
  ltb, if◌then◌else◌, length, length-append, is_nil, All, All-append, arith, Bool-cases, inl, inr,
}
use networkat_cloud_web_app.Prelude.Text.{Text, codes, text_eq, trim, to_lower}
use networkat_cloud_web_app.Ids.Networks.Fields.{NamedList}
use networkat_cloud_web_app.Ids.Networks.Ports.{port_match, port_fits}
use networkat_cloud_web_app.Ids.CustomRules.Fields.{
  source, destination, Condition, RuleFields, RuleKind, site_kind, addr_kind, port_kind, CustomRule,
  is_addr_kind, is_site_kind, is_port_kind,
}
use networkat_cloud_web_app.Ids.CustomRules.Form.{is_unset}
use networkat_cloud_web_app.Ids.CustomRules.Conditions.{
  site_on, from_on, to_on, port_on, resolve, side_condition, is_user_agent, is_to_addr, site_part,
  to_part, port_part, conditions,
}
use networkat_cloud_web_app.Ids.CustomRules.Checks.{
  is_unresolved, site_error, check, has_errors, staged_conditions,
}
use networkat_cloud_web_app.Ids.CustomRules.Given.{
  IsGiven, IsFilled, side_condition-given, length_pos, length-to_lower, word_given,
  port_match-IsPortText,
}

-- One part of the conditions: it is there or not, and has at most so many.
abbrev FewGiven : ℕ → List Condition → Type 0
FewGiven n cs = All IsGiven cs × (length cs ≤ n)

site_part-FewGiven :
    (on : Bool) (r : RuleFields)
    → (on && site_error r) ≡ false
    → FewGiven 1 (if on then site_part r else [])
unfolding site_part site_error
site_part-FewGiven false r h = (tt, omega arith)
site_part-FewGiven true r h =
    let s = to_lower (trim r.site) in
    let same = length-to_lower (trim r.site) in
    elim (Bool-cases (is_user_agent r.look)) [
      | inl agent ↦
          let checked = rw (site_error, agent) at h in
          let full : is_nil s ≡ false = ground (arith, checked) in
          let few : ltb 200 (length s) ≡ false = ground (arith, checked) in
          let pos = length_pos s full in
          rw agent (
            ((trim r.site, refl, omega (arith, pos, same), ground (arith, few, same)), tt),
            omega arith,
          )
      | inr plain ↦
          let checked = rw (site_error, plain) at h in
          let full : is_nil s ≡ false = ground (arith, checked) in
          let few : ltb 253 (length s) ≡ false = ground (arith, checked) in
          rw plain (((s, refl, length_pos s full, ground (arith, few)), tt), omega arith)
    ]

from_part-FewGiven :
    (lists : List NamedList) (on : Bool) (v : Text)
    → All (λ a. is_nil a.id ≡ false) lists
    → (on && is_unresolved (resolve lists v)) ≡ false
    → FewGiven 1 (if on then side_condition lists source v ∷ [] else [])
from_part-FewGiven lists false v ids h = (tt, omega arith)
from_part-FewGiven lists true v ids h =
    let (full, is_source) = side_condition-given lists source v ids h in
    ((rw is_source full, tt), omega arith)

to_part-FewGiven :
    (lists : List NamedList) (on : Bool) (r : RuleFields)
    → All (λ a. is_nil a.id ≡ false) lists
    → (on && is_unset r.to) ≡ false
    → (on && is_to_addr r.to && is_unresolved (resolve lists r.to_v)) ≡ false
    → FewGiven 1 (if on then to_part lists r else [])
unfolding to_part
to_part-FewGiven lists false r ids set h = (tt, omega arith)
to_part-FewGiven lists true r ids set h = elim (Bool-cases (is_to_addr r.to)) [
  | inl at ↦
      let known = rw at at h in
      let (full, is_destination) = side_condition-given lists destination r.to_v ids known in
      rw at ((rw is_destination full, tt), omega arith)
  | inr word ↦ rw word ((rw (word_given r.to set) refl, tt), omega arith)
]

port_part-FewGiven :
    (on : Bool) (r : RuleFields)
    → is_nil r.proto ≡ false
    → (on && not (port_fits (port_match (trim r.port)))) ≡ false
    → FewGiven 2 (if on then port_part r else [])
unfolding port_part
port_part-FewGiven false r full h = (tt, omega arith)
port_part-FewGiven true r full h =
    let text = port_match-IsPortText (trim r.port) (ground (arith, h)) in
    elim (Bool-cases (text_eq r.proto (codes "any"))) [
      | inl any_proto ↦ rw any_proto (((trim r.port, refl, text), tt), omega arith)
      | inr one ↦ rw one (((trim r.port, refl, text), (rw full refl, tt)), omega arith)
    ]

FewGiven-append :
    (m n : ℕ) (xs ys : List Condition) → FewGiven m xs → FewGiven n ys → FewGiven (m + n) (xs ++ ys)
FewGiven-append m n xs ys (hx, lx) (hy, ly) =
    (All-append IsGiven xs ys hx hy, omega (arith, length-append xs ys, lx, ly))

checked_sides :
    (lists : List NamedList) (fs : CustomRule)
    → has_errors (check lists fs) ≡ false
    → ((from_on fs && is_unresolved (resolve lists fs.r.from_v)) ≡ false)
      × ((to_on fs && is_to_addr fs.r.to && is_unresolved (resolve lists fs.r.to_v)) ≡ false)
      × ((site_on fs && site_error fs.r) ≡ false)
      × ((port_on fs && not (port_fits (port_match (trim fs.r.port)))) ≡ false)
unfolding check
checked_sides lists fs h =
    (ground (arith, h), ground (arith, h), ground (arith, h), ground (arith, h))

-- The activity of the rule is one of the conditions.
conditions-length : (lists : List NamedList) (fs : CustomRule) → 1 ≤ length (conditions lists fs)
unfolding conditions site_part to_part port_part
conditions-length lists fs =
    let site = if site_on fs then site_part fs.r else [] in
    let from = if from_on fs then side_condition lists source fs.r.from_v ∷ [] else [] in
    let to = if to_on fs then to_part lists fs.r else [] in
    let port = if port_on fs then port_part fs.r else [] in
    let sum = length-append site (from ++ (to ++ port)) in
    let sum' = length-append from (to ++ port) in
    let sum'' = length-append to port in
    elim (core fs.kind) [
      | inl is_site ↦
          let one : 1 ≤ length site = rw is_site (omega arith) in omega (arith, sum, one)
      | inr (inl is_to) ↦
          let one : 1 ≤ length to = rw is_to (to_part-length fs.r) in
          omega (arith, sum, sum', sum'', one)
      | inr (inr is_port) ↦
          let one : 1 ≤ length port = rw is_port (omega arith) in
          omega (arith, sum, sum', sum'', one)
    ]
  where
    core :
        (kind : RuleKind)
        → ((is_site_kind kind || fs.more.site) ≡ true)
          ⊎ ((is_addr_kind kind || fs.more.to) ≡ true)
          ⊎ ((is_port_kind kind || fs.more.port) ≡ true)
    core site_kind = inl refl
    core addr_kind = inr (inl refl)
    core port_kind = inr (inr refl)

    to_part-length : (r : RuleFields) → 1 ≤ length (to_part lists r)
    to_part-length r = elim (Bool-cases (is_to_addr r.to)) [
      | inl at ↦ rw (to_part, at) (omega arith)
      | inr word ↦ rw (to_part, word) (omega arith)
    ]

-- A form that passes the checks is staged with one to five conditions, and each says what it
-- compares with: a site with a text that is not blank and has at most 253 code units, an address with
-- a value or the id of an alias, a port with a number from 1 to 65535 or with a range of them that
-- rises, and a protocol with a text. The aliases have ids, a destination that is on has a place, and
-- the protocol of the form is not empty.
pub staged_conditions-IsGiven :
    (lists : List NamedList) (fs : CustomRule) (cs : List Condition)
    → IsFilled lists fs
    → staged_conditions lists fs ≡ some cs
    → All IsGiven cs × (1 ≤ length cs) × (length cs ≤ 5)
unfolding staged_conditions conditions
staged_conditions-IsGiven lists fs cs filled h =
    let fine : has_errors (check lists fs) ≡ false = ground (arith, h) in
    let is_cs : conditions lists fs ≡ cs = ground (arith, h) in
    let (from_fine, to_fine, site_fine, port_fine) = checked_sides lists fs fine in
    let site = site_part-FewGiven (site_on fs) fs.r site_fine in
    let from = from_part-FewGiven lists (from_on fs) fs.r.from_v filled.ids from_fine in
    let to = to_part-FewGiven lists (to_on fs) fs.r filled.ids filled.place to_fine in
    let port = port_part-FewGiven (port_on fs) fs.r filled.proto port_fine in
    let tail = FewGiven-append 1 2 _ _ to port in
    let (all_given, few) = FewGiven-append 1 4 _ _ site (FewGiven-append 1 3 _ _ from tail) in
    subst (λ ds. All IsGiven ds × (1 ≤ length ds) × (length ds ≤ 5)) is_cs
      (all_given, conditions-length lists fs, few)
