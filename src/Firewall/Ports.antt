-- ===== src/Firewall/Ports.antt =====
-- client/static/js/firewall.js, `validatePortInput`: a list of ports and port ranges.
pub mod Disjoint
pub mod Grammar
use networkat_cloud_web_app.Prelude.{
  ℕ, zero, suc, ◌≡◌, Bool, true, false, not, ◌&&◌, ◌||◌, List, [], ◌∷◌, ltb, leb, ◌==◌,
  if◌then◌else◌, length, get_or, is_nil, any, min, max, Result, ok, err, ◌>>=◌, ◌>>◌, reject,
}
use networkat_cloud_web_app.Prelude.Text.{
  Text, is_space, trim, includes, starts_in, ends_in, split_on,
}
use networkat_cloud_web_app.Prelude.Decimal.{parse_int, is_digits}

pub data PortError : Type 0 where
  no_spaces invalid_format too_many invalid_port port_bounds invalid_range range_bounds : PortError
  overlapping : PortError

pub record Range : Type 0 where
  pub lo : ℕ
  pub hi : ℕ

-- `value.includes(',,')`
unfoldable pub has_double_comma : Text → Bool
has_double_comma [] = false
has_double_comma (c ∷ s) = c == b',' && starts_in b',' s || has_double_comma s

-- A port, or two ports with a dash between.
unfoldable pub parse_range : Text → Result PortError Range
parse_range part =
    let range_parts = split_on b'-' part in
    let first = get_or range_parts 0 [] in
    let second = get_or range_parts 1 [] in
    do
      reject (not (length range_parts == 2) || is_nil first || is_nil second) invalid_range
      reject (not (is_digits first) || not (is_digits second)) invalid_range
      let lo = parse_int first
      let hi = parse_int second
      reject (ltb lo 1 || ltb 65535 lo || ltb hi 1 || ltb 65535 hi || leb hi lo) range_bounds
      ok (record { lo = lo; hi = hi })

unfoldable pub parse_single : Text → Result PortError Range
parse_single part = do
  reject (not (is_digits part)) invalid_port
  let port = parse_int part
  reject (ltb port 1 || ltb 65535 port) port_bounds
  ok (record { lo = port; hi = port })

-- One round of the first loop.
unfoldable pub parse_part : Text → Result PortError Range
parse_part part = do
  reject (is_nil part) invalid_port
  if includes b'-' part then parse_range part else parse_single part

unfoldable pub parse_parts : List Text → Result PortError (List Range)
parse_parts [] = ok []
parse_parts (part ∷ parts) = do
  range ← parse_part part
  ranges ← parse_parts parts
  ok (range ∷ ranges)

abbrev pub overlap : Range → Range → Bool
overlap r₁ r₂ = leb (max r₁.lo r₂.lo) (min r₁.hi r₂.hi)

-- The two loops over `i < j`.
unfoldable pub has_overlap : List Range → Bool
has_overlap [] = false
has_overlap (r ∷ rs) = any (overlap r) rs || has_overlap rs

unfoldable pub validate_port_input : Text → Result PortError (Unit {0})
validate_port_input value = if is_nil value || is_nil (trim value) then ok tt else (do
  reject (any is_space value) no_spaces
  reject (starts_in b',' value || ends_in b',' value || has_double_comma value) invalid_format
  let parts = split_on b',' value
  reject (ltb 64 (length parts)) too_many
  ranges ← parse_parts parts
  reject (has_overlap ranges) overlapping
  ok tt)
