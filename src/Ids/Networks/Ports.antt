-- ===== src/Ids/Networks/Ports.antt =====
-- client/static/js/ids_win_networks.js, the ports of a service: `checkPorts`, `commitPort`, the
-- handlers of the field and the part of `save` that sends the ports.
pub mod Again
use networkat_cloud_web_app.Prelude.{
  ℕ, Bool, true, false, not, ◌&&◌, ◌||◌, Option, none, some, List, [], ◌∷◌, map, ltb, leb, ◌==◌,
  if◌then◌else◌, length, is_nil, all, any, keep, Result, ok, err,
}
use networkat_cloud_web_app.Prelude.Text.{Text, codes, text_eq, is_space, is_digit, split_on, join}
use networkat_cloud_web_app.Prelude.Decimal.{parse_int, is_digits}

abbrev pub as_comma : ℕ → ℕ
as_comma c = if is_space c then b',' else c

-- `v.split(/[\s,]+/).filter(Boolean)`
unfoldable pub words : Text → List Text
words v = keep (λ w. not (is_nil w)) (split_on b',' (map as_comma v))

-- The longest beginning of digits, and the rest.
unfoldable pub span_digits : Text → Text × Text
span_digits [] = ([], [])
span_digits (c ∷ s) =
    let (digits, rest) = span_digits s in if is_digit c then (c ∷ digits, rest) else ([], c ∷ s)

abbrev pub upper_end : Text → Text → Option (Text × Option Text)
upper_end first [] = some (first, none)
upper_end first (c ∷ second) =
    if (c == b'-' || c == b':') && is_digits second then some (first, some second) else none

-- `p.match(/^(\d+)(?:[-:](\d+))?$/)`, its groups
unfoldable pub port_match : Text → Option (Text × Option Text)
port_match p =
    let (first, rest) = span_digits p in if is_nil first then none else upper_end first rest

abbrev pub upper_fits : ℕ → Option Text → Bool
upper_fits low none = true
upper_fits low (some second) =
    not (leb (parse_int second) low) && not (ltb 65535 (parse_int second))

abbrev pub port_fits : Option (Text × Option Text) → Bool
port_fits none = false
port_fits (some (first, second)) =
    not (ltb (parse_int first) 1)
    && not (ltb 65535 (parse_int first))
    && upper_fits (parse_int first) second

-- `p.replace(':', '-')`: the first colon
abbrev pub replace_colon : Text → Text
replace_colon [] = []
replace_colon (c ∷ s) = if c == b':' then b'-' ∷ s else c ∷ replace_colon s

pub data PortsError : Type 0 where
  no_port too_many : PortsError
  invalid_port : Text → PortsError

-- The loop over the parts.
unfoldable pub check_port_parts : List Text → Result PortsError (Unit {0})
check_port_parts [] = ok tt
check_port_parts (p ∷ ps) =
    if port_fits (port_match p) then check_port_parts ps else err (invalid_port p)

unfoldable pub check_ports : Text → Result PortsError (List Text)
check_ports v =
    let parts = words v in
    if is_nil parts
    then err no_port
    else if ltb 20 (length parts)
    then err too_many
    else elim (check_port_parts parts) [ err e ↦ err e | ok _ ↦ ok (map replace_colon parts) ]

-- The field of one service. `shown` is what the input holds, `ports` what is staged; `perr` and
-- `pwarn` say whether there is an error or a warning.
pub record PortField : Type 0 where
  pub service : Text
  pub shown : Text
  pub ports : Text
  pub saved : Text
  pub default : Text
  pub perr : Bool
  pub pwarn : Bool

-- `/[^\d,\s:-]/`
abbrev pub is_bad_char : ℕ → Bool
is_bad_char c = not (is_digit c || c == b',' || is_space c || c == b':' || c == b'-')

-- Typing: a character that is never valid gives a warning.
unfoldable pub port_typed : Text → PortField → PortField
port_typed value f = record f { shown = value; perr = false; pwarn = any is_bad_char value }

-- Leaving the field.
unfoldable pub commit_port : PortField → PortField
commit_port f =
    if f.pwarn then record f { perr = true; pwarn = false } else elim (check_ports f.shown) [
      | err e ↦ record f { perr = true }
      | ok list ↦ let v = join (codes ", ") list in record f { perr = false; shown = v; ports = v }
    ]

-- The buttons "Reset" and "Undo"; drawing again shows what is staged.
unfoldable pub reset_port : PortField → PortField
reset_port f = record f { ports = f.default; perr = false; pwarn = false; shown = f.default }

unfoldable pub undo_port : PortField → PortField
undo_port f = record f { ports = f.saved; perr = false; pwarn = false; shown = f.saved }

abbrev pub is_pending_port : PortField → Bool
is_pending_port f = not (text_eq f.ports f.saved)

-- `checkPorts(S.ports[k]).list`, the entry for a service in the request; `none` is undefined.
unfoldable pub ports_body : Text → Option (List Text)
ports_body ports = elim (check_ports ports) [ err e ↦ none | ok list ↦ some list ]
