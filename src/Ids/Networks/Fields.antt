-- ===== src/Ids/Networks/Fields.antt =====
-- client/static/js/ids_win_networks.js, the field of an address or an alias: `okAddr`, `shownAddr`,
-- `parse` and `checkForm`.
use networkat_cloud_web_app.Prelude.{
  Bool, true, false, not, ◌&&◌, ◌||◌, Option, none, some, List, [], ◌∷◌, map, ltb, leb, ◌==◌,
  if◌then◌else◌, length, get_or, get_elem?, is_nil, all, any, keep, drop, find, Result, ok, err,
}
use networkat_cloud_web_app.Prelude.Text.{
  Text, codes, text_eq, is_digit, trim, starts_in, ends_with, split_on, to_lower,
}
use mathlib.Core.List.{reverse}
use networkat_cloud_web_app.Prelude.Decimal.{parse_int, is_digits}
use networkat_cloud_web_app.Alias.{parts_of}

-- `25[0-5]|2[0-4]\d|1?\d?\d`
unfoldable pub octet_regex : Text → Bool
octet_regex [] = false
octet_regex (a ∷ []) = is_digit a
octet_regex (a ∷ b ∷ []) = is_digit a && is_digit b
octet_regex (a ∷ b ∷ c ∷ []) =
    a == b'2' && b == b'5' && leb b'0' c && leb c b'5'
    || a == b'2' && leb b'0' b && leb b b'4' && is_digit c
    || a == b'1' && is_digit b && is_digit c
octet_regex (a ∷ b ∷ c ∷ d ∷ s) = false

-- `IPRE`
unfoldable pub ip_regex : Text → Bool
ip_regex s = length (split_on b'.' s) == 4 && all octet_regex (split_on b'.' s)

abbrev mask_between : Option Text → Bool
mask_between none = true
mask_between (some m) = is_digits m && leb 8 (parse_int m) && leb (parse_int m) 32

-- The destructuring takes the first two parts and no other.
unfoldable pub ok_addr : Text → Bool
ok_addr v =
    let parts = split_on b'/' v in ip_regex (get_or parts 0 []) && mask_between (get_elem? parts 1)

-- `String(v || '').replace(/\/32$/, '')`
unfoldable pub shown_addr : Text → Text
shown_addr v = if ends_with (codes "/32") v then reverse (drop 3 (reverse v)) else v

-- An alias of the window: `a.id || a.slug` and `a.name || a.slug || a.id`.
pub record NamedList : Type 0 where
  pub id : Text
  pub name : Text

pub data ParseError : Type 0 where
  help one_alias mixed aliases_missing unknown_alias too_many : ParseError
  one_address : ParseError

pub data Parsed : Type 0 where
  picked : NamedList → Parsed
  addrs : List Text → Parsed

unfoldable pub find_alias : List NamedList → Text → Option NamedList
find_alias lists n = elim (find (λ x. text_eq x.name n) lists) [
  | some a ↦ some a
  | none ↦ find (λ x. text_eq (to_lower x.name) (to_lower n)) lists
]

unfoldable pub parse_alias : Bool → List NamedList → Text → Result ParseError Parsed
parse_alias aliases_failed lists part = elim (find_alias lists (trim (drop 1 part))) [
  | some a ↦ ok (picked a)
  | none ↦ err (if aliases_failed then aliases_missing else unknown_alias)
]

unfoldable pub parse : Bool → List NamedList → Text → Result ParseError Parsed
parse aliases_failed lists value =
    let parts = parts_of value in
    let al = keep (starts_in b'@') parts in
    if is_nil parts
    then err help
    else if ltb 1 (length al)
    then err one_alias
    else if not (is_nil al) && ltb 1 (length parts)
    then err mixed
    else if not (is_nil al)
    then parse_alias aliases_failed lists (get_or al 0 [])
    else if ltb 64 (length parts)
    then err too_many
    else if any (λ p. not (ok_addr p)) parts
    then err help
    else ok (addrs (map shown_addr parts))

abbrev several_addrs : Parsed → Bool
several_addrs (picked a) = false
several_addrs (addrs values) = ltb 1 (length values)

-- `warned` says whether `fs.warn` is set, `editing` whether the form changes a row. `none` stands for
-- the warning.
unfoldable pub check_form :
    Bool → List NamedList → Bool → Bool → Text → Result (Option ParseError) Parsed
check_form aliases_failed lists warned editing value =
    if warned then err none else elim (parse aliases_failed lists value) [
      | err e ↦ err (some e)
      | ok r ↦ if editing && several_addrs r then err (some one_address) else ok r
    ]
