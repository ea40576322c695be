-- ===== src/AliasLists/Save.antt =====
-- client/static/js/aliases.js, `submitAddressList`, `deleteAddressList` and `syncAddressLists`: the
-- requests of the page and what follows their answers.
pub mod Plan
pub mod Stable
use networkat_cloud_web_app.Prelude.{
  Bool, true, false, not, ◌||◌, Option, none, some, List, [], ◌∷◌, ◌&&◌, if◌then◌else◌, is_nil, any,
  is_ok,
}
use networkat_cloud_web_app.Prelude.Text.{Text, codes, text_eq, trim}
use networkat_cloud_web_app.AliasLists.Requests.{Answer, is_accepted, Saved, one_request}
use networkat_cloud_web_app.Alias.{Alias, AliasId, missing, number, text}
use networkat_cloud_web_app.Firewall.AliasEntry.{validate_alias_name, validate_alias_comment}
use networkat_cloud_web_app.AliasLists.Entry.{validate_alias_entry}
use networkat_cloud_web_app.AliasLists.Rows.{Row, Entry, Validator, Rows, check_rows, sent_entries}

pub record ListForm : Type 0 where
  pub is_edit : Bool
  pub name : Text
  pub comment : Text
  pub type : Text
  pub rows : List Row

pub data Request : Type 0 where
  create_list : Text → Text → Text → List Entry → Request
  update_properties : Text → Text → Text → Request
  update_items : Text → List Entry → Request
  update_list : Text → Text → List Entry → Request
  delete_list : Text → Request
  sync_lists : Request

pub record ListsPage : Type 0 where
  pub cached_address_lists : List Alias
  pub original_slug : Text
  pub upstream_dns : List Text
  pub may_use : Bool  -- `_featureAliases || _adminView`

-- `l.id !== undefined`
abbrev pub has_id_field : AliasId → Bool
has_id_field missing = false
has_id_field (number n) = true
has_id_field (text t) = true

-- `cachedAddressLists.length > 0 && cachedAddressLists.some(l => l.id !== undefined)`
unfoldable pub is_new_agent : List Alias → Bool
is_new_agent lists = not (is_nil lists) && any (λ l. has_id_field l.id) lists

-- The edit with two requests: the items are sent after the properties were taken.
unfoldable pub save_edit : (Request → Answer) → ListsPage → ListForm → List Entry → Saved Request
save_edit answers page form entries =
    let patch = update_properties page.original_slug (trim form.name) (trim form.comment) in
    let put = update_items page.original_slug entries in
    if is_accepted (answers patch)
    then record { requests = patch ∷ put ∷ []; success = is_accepted (answers put) }
    else record { requests = patch ∷ []; success = false }

unfoldable pub save_list : (Request → Answer) → ListsPage → ListForm → List Entry → Saved Request
save_list answers page form entries =
    let name = trim form.name in
    let comment = trim form.comment in
    if form.is_edit
    then (if is_new_agent page.cached_address_lists
        then save_edit answers page form entries
        else one_request answers (update_list page.original_slug comment entries))
    else one_request answers (create_list name comment form.type entries)

unfoldable pub form_rows : ListsPage → ListForm → Rows
form_rows page form =
    check_rows (validate_alias_entry page.upstream_dns form.type)
      (text_eq form.type (codes "web_domain")) [] form.rows

unfoldable pub form_entries : ListsPage → ListForm → Option (List Entry)
form_entries page form =
    sent_entries (is_ok (validate_alias_name (trim form.name)))
      (validate_alias_comment (trim form.comment)) (form_rows page form)

-- A form with an error makes no request.
unfoldable pub submit_address_list :
    (Request → Answer) → ListsPage → ListForm → Option (Saved Request)
submit_address_list answers page form = elim (form_entries page form) [
  | none ↦ none
  | some entries ↦ some (save_list answers page form entries)
]

-- `confirmed` is the answer to the question.
unfoldable pub delete_address_list :
    (Request → Answer) → ListsPage → Bool → Text → Option (Saved Request)
delete_address_list answers page confirmed slug =
    if not page.may_use || not confirmed
    then none
    else some (one_request answers (delete_list slug))

unfoldable pub sync_address_lists : (Request → Answer) → ListsPage → Option (Saved Request)
sync_address_lists answers page =
    if not page.may_use then none else some (one_request answers sync_lists)
