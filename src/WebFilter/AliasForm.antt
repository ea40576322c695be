-- ===== src/WebFilter/AliasForm.antt =====
-- client/static/js/web_filter.js, `validateAliasModalEntry`, `submitAliasForm` and `deleteAlias`: the
-- form for an alias on the page of the web filter. Its loop over the rows is that of the aliases
-- page, and its checks for a web domain are those of the firewall page, word for word.
pub mod Stable
pub mod Reference
use networkat_cloud_web_app.Prelude.{
  Bool, true, false, not, ◌&&◌, ◌||◌, Option, none, some, List, [], ◌∷◌, ◌++◌, ltb, if◌then◌else◌,
  length, is_nil, all, find, Result, ok, err,
}
use networkat_cloud_web_app.Prelude.Text.{
  Text, codes, text_eq, is_digit, is_letter, trim, includes, split_on,
}
use networkat_cloud_web_app.NetworkMath.Ipv4.{parse_and_validate_ipv4, plain_options}
use networkat_cloud_web_app.NetworkMath.Dns.{bad_format, label_regex}
use networkat_cloud_web_app.Firewall.AliasEntry.{
  EntryError, required, invalid_format, not_ipv4, bad_hostname, EntryType, address_entry,
  hostname_entry, check_web_domain,
}
use networkat_cloud_web_app.AliasLists.Requests.{Answer, is_accepted, Saved, one_request}
use networkat_cloud_web_app.AliasLists.Rows.{Row, Entry, Rows, or_null, check_rows, sent_entries}

-- `/^([a-zA-Z0-9]([a-zA-Z0-9-]{0,61}[a-zA-Z0-9])?\.)*[a-zA-Z0-9]([a-zA-Z0-9-]{0,61}[a-zA-Z0-9])?$/`
unfoldable pub hostname_regex : Text → Bool
hostname_regex s = all label_regex (split_on b'.' s)

unfoldable pub check_modal_digit : Text → Result EntryError (EntryType × Text)
check_modal_digit trimmed = elim (parse_and_validate_ipv4 plain_options (some trimmed)) [
  | ok r ↦ ok (address_entry, r.normalized)
  | err e ↦ err (not_ipv4 e)
]

unfoldable pub check_modal_letter : Text → Result EntryError (EntryType × Text)
check_modal_letter trimmed =
    if includes b':' trimmed
      || includes b'*' trimmed
      || includes b'/' trimmed
      || not (hostname_regex trimmed)
      || ltb 253 (length trimmed)
    then err (bad_hostname bad_format)
    else ok (hostname_entry, trimmed)

unfoldable pub check_modal_normal : Text → Result EntryError (EntryType × Text)
check_modal_normal [] = err required
check_modal_normal (c ∷ s) =
    if is_digit c
    then check_modal_digit (c ∷ s)
    else if is_letter c
    then check_modal_letter (c ∷ s)
    else err invalid_format

unfoldable pub validate_alias_modal_entry : Text → Text → Result EntryError (EntryType × Text)
validate_alias_modal_entry type value =
    let trimmed = trim value in
    if is_nil value || is_nil trimmed
    then err required
    else if text_eq type (codes "web_domain")
    then check_web_domain trimmed
    else check_modal_normal trimmed

-- `edited` is the id of the alias that is changed; a new alias has none.
pub record AliasForm : Type 0 where
  pub edited : Option Text
  pub type : Text
  pub name : Text
  pub comment : Text
  pub rows : List Row

-- A new alias has its name as its slug too. A blank comment of a new alias is sent as null.
pub data AliasRequest : Type 0 where
  create_alias : Text → Text → Option Text → List Entry → AliasRequest
  patch_alias : Text → Text → Text → AliasRequest
  put_items : Text → List Entry → AliasRequest
  delete_alias_of : Text → AliasRequest

unfoldable pub alias_rows : AliasForm → Rows
alias_rows form =
    check_rows (validate_alias_modal_entry form.type) (text_eq form.type (codes "web_domain")) []
      form.rows

unfoldable pub alias_entries : AliasForm → Option (List Entry)
alias_entries form =
    let name = trim form.name in
    sent_entries (not (is_nil name) && not (ltb 200 (length name)))
      (not (ltb 200 (length (trim form.comment)))) (alias_rows form)

-- The properties first, then the items.
unfoldable pub save_alias : (AliasRequest → Answer) → AliasForm → List Entry → Saved AliasRequest
save_alias answers form entries = elim form.edited [
  | none ↦
      one_request answers
        (create_alias (trim form.name) form.type (or_null (trim form.comment)) entries)
  | some alias_id ↦
      let patch = patch_alias alias_id (trim form.name) (trim form.comment) in
      let put = put_items alias_id entries in
      if is_accepted (answers patch)
      then record { requests = patch ∷ put ∷ []; success = is_accepted (answers put) }
      else record { requests = patch ∷ []; success = false }
]

-- The domain field of the rule's form, once an alias was saved.
unfoldable pub append_reference : Text → Text → Text
append_reference name domains =
    let current_val = trim domains in
    if is_nil current_val then b'@' ∷ name else current_val ++ (codes ", @" ++ name)

pub record AliasSaved : Type 0 where
  pub saved : Saved AliasRequest
  pub domains : Text

-- `domains` is what the domain field of the rule's form holds. A form with an error does nothing.
unfoldable pub submit_alias_form : (AliasRequest → Answer) → AliasForm → Text → Option AliasSaved
submit_alias_form answers form domains = elim (alias_entries form) [
  | none ↦ none
  | some entries ↦
      let saved = save_alias answers form entries in
      some (record {
        saved = saved;
        domains = if saved.success then append_reference (trim form.name) domains else domains;
      })
]

-- `confirmed` is the answer to the question.
unfoldable pub delete_alias : (AliasRequest → Answer) → Bool → Text → Option (Saved AliasRequest)
delete_alias answers confirmed alias_id =
    if confirmed then some (one_request answers (delete_alias_of alias_id)) else none
