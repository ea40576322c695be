-- ===== src/Ids/CustomRules/Given.antt =====
-- What a condition compares with, and the texts that say it.
use networkat_cloud_web_app.Prelude.{
  ℕ, ◌≡◌, ◌≤◌, ◌<◌, refl, subst, ◌⊎◌, Bool, true, false, not, ◌&&◌, ◌||◌, Option, none, some, List,
  [], ◌∷◌, ◌++◌, ◌==◌, length, length-map, is_nil, drop, find, All, arith, Bool-cases, Option-cases,
  inl, inr,
}
use networkat_cloud_web_app.Prelude.Text.{Text, codes, text_eq, trim, lower, to_lower, starts_in}
use networkat_cloud_web_app.Prelude.Decimal.{parse_int, is_digits}
use networkat_cloud_web_app.Firewall.Order.Laws.{some-injective}
use networkat_cloud_web_app.Ids.Networks.Fields.{NamedList, ok_addr, find_alias}
use networkat_cloud_web_app.Ids.Networks.Ports.{port_match, port_fits}
use networkat_cloud_web_app.Ids.Networks.Ports.Again.{IsPort, single, range, port_fits-IsPort}
use networkat_cloud_web_app.Ids.CustomRules.Fields.{
  CondType, app_layer, source, destination, ip, port, protocol, Condition, CustomRule, ToSide,
  to_unset, to_addr, to_internet, to_lan,
}
use networkat_cloud_web_app.Ids.CustomRules.Form.{is_unset}
use networkat_cloud_web_app.Ids.CustomRules.Conditions.{
  to_on, Resolved, a_value, an_alias, unresolved, resolve, side_condition, to_text,
}
use networkat_cloud_web_app.Ids.CustomRules.Checks.{is_unresolved}

-- A text that is there and not empty.
abbrev pub given : Option Text → Bool
given none = false
given (some t) = not (is_nil t)

-- A port, or a range that rises.
abbrev pub IsPortText : Text → Type 0
IsPortText v =
    (a : Text) × (is_digits a ≡ true)
    × (1 ≤ parse_int a)
    × (parse_int a ≤ 65535)
    × ((v ≡ a)
        ⊎ ((c : ℕ) × (b : Text) × (v ≡ a ++ c ∷ b)
            × ((c ≡ b'-') ⊎ (c ≡ b':'))
            × (parse_int a < parse_int b)
            × (parse_int b ≤ 65535)))

-- What a condition compares with: a site has a text that is not blank, an address has a value or the
-- id of an alias, a port has a port or a range, and a protocol has one.
abbrev pub Compares : CondType → Condition → Type 0
Compares (app_layer look) c = (v : Text) × (c.value ≡ some v) × (1 ≤ length v) × (length v ≤ 253)
Compares source c = (given c.value || given c.alias_id) ≡ true
Compares destination c = (given c.value || given c.alias_id) ≡ true
Compares ip c = (given c.value || given c.alias_id) ≡ true
Compares port c = (v : Text) × (c.value ≡ some v) × IsPortText v
Compares protocol c = given c.value ≡ true

abbrev pub IsGiven : Condition → Type 0
IsGiven c = Compares c.type c

-- The aliases that were loaded have ids, a destination that is on has a place, and the protocol of
-- the form is one of its choices.
pub record IsFilled (lists : List NamedList) (fs : CustomRule) : Type 0 where
  pub ids : All (λ a. is_nil a.id ≡ false) lists
  pub place : (to_on fs && is_unset fs.r.to) ≡ false
  pub proto : is_nil fs.r.proto ≡ false

found-All :
    (p : NamedList → Bool) (lists : List NamedList) (a : NamedList)
    → All (λ a. is_nil a.id ≡ false) lists
    → find p lists ≡ some a
    → is_nil a.id ≡ false
found-All p [] a h e = cc
found-All p (x ∷ xs) a (hx, hxs) e = elim (Bool-cases (p x)) [
  | inl here ↦ subst (λ b. is_nil b.id ≡ false) (some-injective (rw here at e)) hx
  | inr later ↦ found-All p xs a hxs (rw later at e)
]

find_alias-full :
    (lists : List NamedList) (n : Text) (a : NamedList)
    → All (λ a. is_nil a.id ≡ false) lists
    → find_alias lists n ≡ some a
    → is_nil a.id ≡ false
unfolding find_alias
find_alias-full lists n a h e = elim (Option-cases (find (λ x. text_eq x.name n) lists)) [
  | inr (b, there) ↦
      let is_a : b ≡ a = some-injective (rw (find_alias, there) at e) in
      subst (λ x. is_nil x.id ≡ false) is_a (found-All (λ x. text_eq x.name n) lists b h there)
  | inl none_there ↦
      found-All (λ x. text_eq (to_lower x.name) (to_lower n)) lists a h
        (rw (find_alias, none_there) at e)
]

-- What a resolved text holds.
HoldsText : Resolved → Type 0
HoldsText (a_value t) = is_nil t ≡ false
HoldsText (an_alias id) = is_nil id ≡ false
HoldsText unresolved = Unit

resolve-HoldsText :
    (lists : List NamedList) (v : Text)
    → All (λ a. is_nil a.id ≡ false) lists
    → HoldsText (resolve lists v)
unfolding resolve HoldsText
resolve-HoldsText lists v ids = elim (Bool-cases (is_nil (trim v))) [
  | inl blank ↦ rw (resolve, blank) tt
  | inr full ↦ elim (Bool-cases (starts_in b'@' (trim v))) [
    | inl at ↦ elim (Option-cases (find_alias lists (trim (drop 1 (trim v))))) [
      | inl unknown ↦ rw (resolve, full, at, unknown) tt
      | inr (a, known) ↦
          rw (resolve, full, at, known) (find_alias-full lists (trim (drop 1 (trim v))) a ids known)
    ]
    | inr value ↦
        elim (Bool-cases (
          text_eq (trim v) (codes "lan")
          || text_eq (trim v) (codes "internet")
          || ok_addr (trim v))) [
            | inl good ↦ rw (resolve, full, value, good) full
            | inr bad ↦ rw (resolve, full, value, bad) tt
          ]
  ]
]

pub side_condition-given :
    (lists : List NamedList) (type : CondType) (v : Text)
    → All (λ a. is_nil a.id ≡ false) lists
    → is_unresolved (resolve lists v) ≡ false
    → let c = side_condition lists type v in
      ((given c.value || given c.alias_id) ≡ true) × (c.type ≡ type)
unfolding side_condition HoldsText
side_condition-given lists type v ids h =
    go (resolve lists v) refl h (resolve-HoldsText lists v ids)
  where
    go :
        (x : Resolved)
        → resolve lists v ≡ x
        → is_unresolved x ≡ false
        → HoldsText x
        → let c = side_condition lists type v in
          ((given c.value || given c.alias_id) ≡ true) × (c.type ≡ type)
    go (a_value t) e h full = rw (side_condition, e, full) (refl, refl)
    go (an_alias id) e h full = rw (side_condition, e, full) (refl, refl)
    go unresolved e h full = cc

pub length_pos : (t : Text) → is_nil t ≡ false → 1 ≤ length t
length_pos [] h = cc
length_pos (c ∷ t) h = omega arith

pub length-to_lower : (t : Text) → length (to_lower t) ≡ length t
unfolding to_lower
length-to_lower t = length-map t lower

pub word_given : (t : ToSide) → is_unset t ≡ false → given (some (to_text t)) ≡ true
word_given to_unset h = cc
word_given to_addr h = refl
word_given to_internet h = refl
word_given to_lan h = refl

pub port_match-IsPortText : (v : Text) → port_fits (port_match v) ≡ true → IsPortText v
port_match-IsPortText v h = go (port_fits-IsPort v h)
  where
    separator : (c : ℕ) → (c == b'-' || c == b':') ≡ true → (c ≡ b'-') ⊎ (c ≡ b':')
    separator c h = elim (Bool-cases (c == b'-')) [
      | inl dash ↦ inl (ground (arith, dash))
      | inr other ↦ inr (ground (arith, other, h))
    ]

    go : {p q : Text} → IsPort p q → IsPortText p
    go (single a digits fits) = (a, digits, ground (arith, fits), ground (arith, fits), inl refl)
    go (range a b c digits digits' dash fits) = (
      a,
      digits,
      ground (arith, fits),
      ground (arith, fits),
      inr (c, b, refl, separator c dash, ground (arith, fits), ground (arith, fits)),
    )
