-- ===== src/AliasLists/Rows.antt =====
-- client/static/js/aliases.js, `submitAddressList`: the loop over the rows of the form for an alias,
-- and what is sent. The form of the web filter page runs the same loop with its own validator.
pub mod Reads
pub mod Again
use networkat_cloud_web_app.Prelude.{
  ℕ, Bool, true, false, not, ◌&&◌, ◌||◌, Option, none, some, List, [], ◌∷◌, map, ltb, if◌then◌else◌,
  length, is_nil, any, Result, ok, err,
}
use networkat_cloud_web_app.Prelude.Text.{Text, codes, text_eq, trim, to_lower}
use networkat_cloud_web_app.Firewall.Addresses.{member}
use networkat_cloud_web_app.Firewall.AliasEntry.{
  EntryError, EntryType, domain_entry, address_entry, hostname_entry,
}

pub record Row : Type 0 where
  pub value : Text
  pub comment : Text

-- An item of the list that is sent; the type is the key of its value.
pub record Entry : Type 0 where
  pub type : EntryType
  pub value : Text
  pub comment : Option Text

-- The marks at a row.
pub data RowMark : Type 0 where
  required_row duplicate_item : RowMark
  not_valid : EntryError → RowMark

abbrev pub Validator : Type 0
Validator = Text → Result EntryError (EntryType × Text)

-- `text || null`
abbrev pub or_null : Text → Option Text
or_null s = if is_nil s then none else some s

-- `itemRes.normalized || val`
abbrev pub normalized_or : Text → Text → Text
normalized_or normalized val = if is_nil normalized then val else normalized

abbrev is_address : EntryType → Bool
is_address domain_entry = false
is_address address_entry = true
is_address hostname_entry = false

abbrev pub key_of : Bool → EntryType → EntryType
key_of web_domain type =
    if web_domain then domain_entry else if is_address type then address_entry else hostname_entry

-- What one row comes to: a mark, or an entry; and the text that its field then shows.
pub data RowStep : Type 0 where
  marked : RowMark → Text → RowStep
  entered : Entry → RowStep

unfoldable pub row_step : Validator → Bool → List Text → Row → RowStep
row_step validate web_domain seen row =
    let val = trim row.value in
    if is_nil val then marked required_row row.value else elim (validate val) [
      | err e ↦ marked (not_valid e) row.value
      | ok (type, normalized) ↦
          let normalized_val = normalized_or normalized val in
          if member (to_lower normalized_val) seen
          then marked duplicate_item normalized_val
          else entered (record {
            type = key_of web_domain type;
            value = normalized_val;
            comment = or_null (trim row.comment);
          })
    ]

pub record Rows : Type 0 where
  pub entries : List Entry
  pub marks : List RowMark
  pub values : List Text

abbrev pub seen_after : RowStep → List Text → List Text
seen_after (marked m v) seen = seen
seen_after (entered e) seen = to_lower e.value ∷ seen

abbrev pub add_step : RowStep → Rows → Rows
add_step (marked m v) r = record r { marks = m ∷ r.marks; values = v ∷ r.values }
add_step (entered e) r = record r { entries = e ∷ r.entries; values = e.value ∷ r.values }

-- The loop; `seen` holds the values before, in lower case.
unfoldable pub check_rows : Validator → Bool → List Text → List Row → Rows
check_rows validate web_domain seen [] = record { entries = []; marks = []; values = [] }
check_rows validate web_domain seen (row ∷ rows) =
    let step = row_step validate web_domain seen row in
    add_step step (check_rows validate web_domain (seen_after step seen) rows)

-- The fields above the rows are without an error, `name_fits` and `comment_fits`; then a form is
-- sent if no row has a mark and there are 1 to 256 entries.
unfoldable pub sent_entries : Bool → Bool → Rows → Option (List Entry)
sent_entries name_fits comment_fits r =
    if not name_fits
      || not comment_fits
      || not (is_nil r.marks)
      || is_nil r.entries
      || ltb 256 (length r.entries)
    then none
    else some r.entries
