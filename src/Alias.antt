-- ===== src/Alias.antt =====
-- Address list aliases as the pages cache them, and the references to them inside rules:
-- client/static/js/firewall.js, `resolveAliasNamesToIds` and `resolveAliasIdToName`.
pub mod Parts
pub mod RoundTrip
use networkat_cloud_web_app.Prelude.{
  ℕ, ◌≡◌, Bool, true, false, not, ◌||◌, Option, none, some, List, [], ◌∷◌, ◌++◌, map, ◌==◌,
  if◌then◌else◌, is_nil, keep, find, drop,
}
use networkat_cloud_web_app.Prelude.Text.{
  Text, codes, text_eq, trim, starts_in, starts_with, split_on, join,
}
use networkat_cloud_web_app.Prelude.Decimal.{show}

-- An `id` comes as a number or a text, or is missing; a field that is null is not modelled.
pub data AliasId : Type 0 where
  missing : AliasId
  number : ℕ → AliasId
  text : Text → AliasId

-- The type is compared with 'web_domain' and 'normal' only. A missing name or slug is `none`.
pub record Alias : Type 0 where
  pub id : AliasId
  pub name : Option Text
  pub slug : Option Text
  pub type : Text

-- `String(x)`, where a missing value reads "undefined"
unfoldable pub id_string : AliasId → Text
id_string missing = codes "undefined"
id_string (number n) = show n
id_string (text t) = t

unfoldable pub text_string : Option Text → Text
text_string none = codes "undefined"
text_string (some t) = t

-- `field === key`
abbrev pub field_is : Option Text → Text → Bool
field_is none key = false
field_is (some t) key = text_eq t key

abbrev pub is_truthy_id : AliasId → Bool
is_truthy_id missing = false
is_truthy_id (number n) = not (n == 0)
is_truthy_id (text t) = not (is_nil t)

abbrev pub is_truthy_text : Option Text → Bool
is_truthy_text none = false
is_truthy_text (some t) = not (is_nil t)

-- `${l.id || l.slug}` and `${l.name || l.slug}`
unfoldable pub id_or_slug : Alias → Text
id_or_slug l = if is_truthy_id l.id then id_string l.id else text_string l.slug

unfoldable pub name_or_slug : Alias → Text
name_or_slug l = if is_truthy_text l.name then text_string l.name else text_string l.slug

-- `l.name === key || l.slug === key || String(l.id) === String(key)`
unfoldable pub is_named : Text → Alias → Bool
is_named key l = field_is l.name key || field_is l.slug key || text_eq (id_string l.id) key

-- `String(l.id) === String(key) || String(l.slug) === String(key)`
unfoldable pub has_id : Text → Alias → Bool
has_id key l = text_eq (id_string l.id) key || text_eq (text_string l.slug) key

alias_prefix : Text
alias_prefix = codes "alias_"

-- The reference without "alias_", where it starts so.
unfoldable pub strip_alias : Text → Text
unfolding alias_prefix
strip_alias key = if starts_with alias_prefix key then drop 6 key else key

-- `value.split(',').map(p => p.trim()).filter(Boolean)`
unfoldable pub parts_of : Text → List Text
parts_of value = keep (λ p. not (is_nil p)) (map trim (split_on b',' value))

unfoldable pub part_to_id : List Alias → Text → Text
part_to_id lists part =
    if starts_in b'@' part
    then elim (find (is_named (strip_alias (drop 1 part))) lists) [
      | none ↦ part
      | some matched ↦ b'@' ∷ (codes "alias_" ++ id_or_slug matched)
    ]
    else part

unfoldable pub part_to_name : List Alias → Text → Text
part_to_name lists part =
    if starts_in b'@' part
    then elim (find (has_id (strip_alias (drop 1 part))) lists) [
      | none ↦ part
      | some matched ↦ b'@' ∷ name_or_slug matched
    ]
    else part

unfoldable pub resolve_alias_names_to_ids : List Alias → Text → Text
resolve_alias_names_to_ids lists value =
    if is_nil value then value else join (codes ",") (map (part_to_id lists) (parts_of value))

unfoldable pub resolve_alias_id_to_name : List Alias → Text → Text
resolve_alias_id_to_name lists value =
    if is_nil value then value else join (codes ", ") (map (part_to_name lists) (parts_of value))
