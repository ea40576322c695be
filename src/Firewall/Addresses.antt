-- ===== src/Firewall/Addresses.antt =====
-- client/static/js/firewall.js, `validateAddressInput` and `validateCommentInput`: the source and
-- destination fields of a rule hold one alias or a list of addresses.
pub mod Stable
pub mod Distinct
use networkat_cloud_web_app.Prelude.{
  ℕ, ◌≡◌, Bool, true, false, not, ◌&&◌, ◌||◌, Option, none, some, List, [], ◌∷◌, ltb, ◌==◌,
  if◌then◌else◌, length, get_or, is_nil, any, keep, find, drop, Result, ok, err, ◌>>=◌, ◌>>◌,
  reject,
}
use networkat_cloud_web_app.Prelude.Text.{Text, codes, text_eq, trim, starts_in, join, to_lower}
use networkat_cloud_web_app.NetworkMath.Ipv4.{
  Ipv4Error, Ipv4, parse_and_validate_ipv4, plain_options,
}
use networkat_cloud_web_app.Alias.{Alias, is_named, strip_alias, parts_of}

pub data AddressError : Type 0 where
  too_many mixed_alias several_aliases invalid_alias web_domain_alias duplicate : AddressError
  not_ipv4 : Ipv4Error → AddressError

-- A failed parse is the answer for the whole field.
abbrev pub as_address : Result Ipv4Error Ipv4 → Result AddressError Ipv4
as_address (ok r) = ok r
as_address (err e) = err (not_ipv4 e)

-- `seen.has(text)`
abbrev pub member : Text → List Text → Bool
member t = any (text_eq t)

-- The loop over the addresses; `seen` holds the normal forms before it, in lower case.
unfoldable pub check_addresses : List Text → List Text → Result AddressError (List Text)
check_addresses seen [] = ok []
check_addresses seen (part ∷ parts) = do
  ipv4 ← as_address (parse_and_validate_ipv4 plain_options (some part))
  let lower_val = to_lower ipv4.normalized
  reject (member lower_val seen) duplicate
  rest ← check_addresses (lower_val ∷ seen) parts
  ok (ipv4.normalized ∷ rest)

-- The branch for a single alias reference.
unfoldable pub check_alias : List Alias → Text → Result AddressError (Option Text)
check_alias lists alias_raw =
    let alias_name = trim (drop 1 alias_raw) in
    let matched = find (is_named (strip_alias alias_name)) lists in
    if is_nil alias_name || text_eq alias_name (codes "alias_")
    then err invalid_alias
    else elim matched [
      | none ↦ ok (some alias_raw)
      | some l ↦
          if text_eq l.type (codes "web_domain") then err web_domain_alias else ok (some alias_raw)
    ]

unfoldable pub check_parts : List Alias → List Text → Result AddressError (Option Text)
check_parts lists parts =
    let alias_parts = keep (starts_in b'@') parts in
    if ltb 64 (length parts)
    then err too_many
    else if not (is_nil alias_parts)
    then (if ltb 1 (length parts)
        then err mixed_alias
        else if ltb 1 (length alias_parts)
        then err several_aliases
        else check_alias lists (get_or parts 0 []))
    else (do
      normalized_parts ← check_addresses [] parts
      ok (some (join (codes ", ") normalized_parts)))

-- `ok none` is `{ valid: true }` with no `normalized`.
unfoldable pub validate_address_input : List Alias → Text → Result AddressError (Option Text)
validate_address_input lists value =
    let trimmed = trim value in
    let parts = parts_of trimmed in
    if is_nil value || is_nil trimmed || is_nil parts then ok none else check_parts lists parts

-- `validateCommentInput`: at most 200 code units
unfoldable pub validate_comment_input : Text → Bool
validate_comment_input value = not (ltb 200 (length value))
