-- ===== src/WebFilter/References.antt =====
-- client/static/js/web_filter.js, `resolveAliasIdToName`, `resolveAliasNameToId`,
-- `validateWebFilterSource` and `validateWebFilterDomains`. The source field runs the same checks as
-- an address field of the firewall page, and the page's `cachedAliases` is an argument.
pub mod Sent
use networkat_cloud_web_app.Prelude.{
  ℕ, Bool, true, false, not, ◌&&◌, ◌||◌, Option, none, some, List, [], ◌∷◌, ◌++◌, if◌then◌else◌,
  is_nil, find, drop, Result, ok, err, ◌>>=◌, ◌>>◌, reject,
}
use networkat_cloud_web_app.Prelude.Text.{
  Text, codes, text_eq, trim, to_lower, starts_in, starts_with,
}
use networkat_cloud_web_app.Alias.{
  Alias, AliasId, missing, number, text, id_string, text_string, field_is, is_truthy_id,
  is_truthy_text, name_or_slug, is_named, strip_alias, parts_of,
}
use networkat_cloud_web_app.Firewall.Addresses.{AddressError, member, check_parts}

-- `id === key`: a number is not a text.
abbrev pub id_is : AliasId → Text → Bool
id_is missing key = false
id_is (number n) key = false
id_is (text t) key = text_eq t key

-- `(a.id || a.slug) === key`
abbrev pub id_or_slug_is : Text → Alias → Bool
id_or_slug_is key a = if is_truthy_id a.id then id_is a.id key else field_is a.slug key

-- `(a.id || a.slug) === id || a.name === id || a.slug === id`
abbrev pub has_key : Text → Alias → Bool
has_key id a = id_or_slug_is id a || field_is a.name id || field_is a.slug id

-- `found.id || found.slug || found.name`
abbrev pub key_string : Alias → Text
key_string a =
    if is_truthy_id a.id
    then id_string a.id
    else if is_truthy_text a.slug
    then text_string a.slug
    else text_string a.name

unfoldable pub resolve_alias_id_to_name : List Alias → Text → Text
resolve_alias_id_to_name aliases alias_ref =
    if starts_in b'@' alias_ref
    then elim (find (has_key (strip_alias (drop 1 alias_ref))) aliases) [
      | none ↦ alias_ref
      | some found ↦ b'@' ∷ name_or_slug found
    ]
    else alias_ref

-- `a.name === name || a.slug === name || (a.id || a.slug) === name`
abbrev pub goes_by : Text → Alias → Bool
goes_by name a = field_is a.name name || field_is a.slug name || id_or_slug_is name a

unfoldable pub resolve_alias_name_to_id : List Alias → Text → Text
resolve_alias_name_to_id aliases alias_ref =
    let name = trim (drop 1 alias_ref) in
    if not (starts_in b'@' alias_ref)
    then alias_ref
    else if starts_with (codes "alias_") name
    then b'@' ∷ name
    else elim (find (goes_by name) aliases) [
      | none ↦ codes "@alias_" ++ name
      | some found ↦ codes "@alias_" ++ key_string found
    ]

-- `ok none` is `{ valid: true }` with no `normalized`.
unfoldable pub validate_web_filter_source : List Alias → Text → Result AddressError (Option Text)
validate_web_filter_source aliases value =
    let parts = parts_of (trim value) in
    if is_nil value || is_nil (trim value) || is_nil parts
    then ok none
    else check_parts aliases parts

pub data DomainError : Type 0 where
  required duplicate invalid_alias not_found normal_alias : DomainError

-- A domain field may leave the "@" out.
abbrev pub clean_ref : Text → Text
clean_ref part = if starts_in b'@' part then part else b'@' ∷ part

abbrev check_found : Option Alias → Result DomainError (Unit {0})
check_found none = err not_found
check_found (some matched) = reject (text_eq matched.type (codes "normal")) normal_alias

-- The loop over the parts; `seen` holds the references before, in lower case.
unfoldable pub check_domains : List Alias → List Text → List Text → Result DomainError (Unit {0})
check_domains aliases seen [] = ok tt
check_domains aliases seen (part ∷ parts) = do
  let alias_name = trim (drop 1 (clean_ref part))
  reject (member (to_lower (clean_ref part)) seen) duplicate
  reject (is_nil alias_name || text_eq alias_name (codes "alias_")) invalid_alias
  check_found (find (is_named (strip_alias alias_name)) aliases)
  check_domains aliases (to_lower (clean_ref part) ∷ seen) parts

unfoldable pub validate_web_filter_domains : List Alias → Text → Result DomainError (Unit {0})
validate_web_filter_domains aliases value = do
  let parts = parts_of (trim value)
  reject (is_nil value || is_nil (trim value) || is_nil parts) required
  check_domains aliases [] parts
