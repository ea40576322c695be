-- ===== src/NetworkMath/Dns.antt =====
-- client/static/js/network_math.js, `validateDNSName` and `validateHostname`. The regular
-- expressions are written out as functions, one clause for each way on through the text.
pub mod Labels
use networkat_cloud_web_app.Prelude.{
  ℕ, zero, suc, ◌≡◌, Bool, true, false, not, ◌&&◌, ◌||◌, Option, none, some, List, [], ◌∷◌, ltb,
  ◌==◌, if◌then◌else◌, length, is_nil, all, Result, ok, err, ◌>>=◌, ◌>>◌, reject,
}
use networkat_cloud_web_app.Prelude.Text.{Text, trim, split_on, is_alnum, starts_in, ends_in}

pub data DnsError : Type 0 where
  required edge_dot empty_label edge_hyphen bad_characters label_too_long bad_format : DnsError
  too_long : ℕ → DnsError

pub record DnsOptions : Type 0 where
  pub allow_dots : Bool
  pub max_length : ℕ

-- `[a-zA-Z0-9-]`
abbrev pub is_ldh : ℕ → Bool
is_ldh c = is_alnum c || c == b'-'

-- The rest of a label, `[a-zA-Z0-9-]{0,k}[a-zA-Z0-9]$`
unfoldable pub label_tail : ℕ → Text → Bool
label_tail k [] = false
label_tail k (d ∷ []) = is_alnum d
label_tail zero (d ∷ e ∷ s) = false
label_tail (suc k) (d ∷ e ∷ s) = is_ldh d && label_tail k (e ∷ s)

-- `/^[a-zA-Z0-9]([a-zA-Z0-9-]{0,61}[a-zA-Z0-9])?$/`
unfoldable pub label_regex : Text → Bool
label_regex [] = false
label_regex (c ∷ []) = is_alnum c
label_regex (c ∷ d ∷ s) = is_alnum c && label_tail 61 (d ∷ s)

-- `/^[a-zA-Z0-9-]+$/`
abbrev pub is_ldh_text : Text → Bool
is_ldh_text s = not (is_nil s) && all is_ldh s

-- One round of the loop over the labels.
unfoldable pub check_label : Text → Result DnsError (Unit {0})
check_label label = do
  reject (is_nil label) empty_label
  reject (starts_in b'-' label || ends_in b'-' label) edge_hyphen
  reject (not (is_ldh_text label)) bad_characters
  reject (ltb 63 (length label)) label_too_long
  ok tt

unfoldable pub check_labels : List Text → Result DnsError (Unit {0})
check_labels [] = ok tt
check_labels (label ∷ labels) = do check_label label; check_labels labels

unfoldable pub check_dotted : Text → Result DnsError Text
check_dotted trimmed = do
  reject (starts_in b'.' trimmed || ends_in b'.' trimmed) edge_dot
  check_labels (split_on b'.' trimmed)
  ok trimmed

unfoldable pub check_single : Text → Result DnsError Text
check_single trimmed = do
  reject (starts_in b'-' trimmed || ends_in b'-' trimmed) edge_hyphen
  reject (not (is_ldh_text trimmed)) bad_characters
  reject (not (label_regex trimmed)) bad_format
  ok trimmed

abbrev pub length_limit : DnsOptions → ℕ
length_limit options = if options.allow_dots then 253 else options.max_length

-- `ok` carries `normalized`.
unfoldable pub validate_dns_name : DnsOptions → Option Text → Result DnsError Text
validate_dns_name options none = err required
validate_dns_name options (some input) =
    let trimmed = trim input in
    if is_nil input || is_nil trimmed
    then err required
    else if ltb (length_limit options) (length trimmed)
    then err (too_long (length_limit options))
    else if options.allow_dots
    then check_dotted trimmed
    else check_single trimmed

abbrev pub hostname_options : DnsOptions
hostname_options = record { allow_dots = true; max_length = 253 }

unfoldable pub validate_hostname : Option Text → Result DnsError Text
validate_hostname val = validate_dns_name hostname_options val
