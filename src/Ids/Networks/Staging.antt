-- ===== src/Ids/Networks/Staging.antt =====
-- client/static/js/ids_win_networks.js, the rows of a list and their staged changes: `fromServer`,
-- `itemKey`, `setItem`, `dupOf`, `doAdd`, `doEdit`, the buttons of a row, `discard` and `listBody`. A
-- row's `uid`, which nothing reads, is left out.
pub mod Discard
pub mod Adding
use networkat_cloud_web_app.Prelude.{
  ℕ, zero, suc, ◌+◌, Bool, true, false, not, ◌&&◌, Option, none, some, List, [], ◌∷◌, ◌++◌, map,
  ltb, if◌then◌else◌, length, is_nil, any, keep, Result, ok, err,
}
use networkat_cloud_web_app.Prelude.Text.{Text, text_eq}
use networkat_cloud_web_app.Ids.Networks.Fields.{NamedList, Parsed, picked, addrs, shown_addr}

-- An address with its `value`, or an alias with its `aliasId`; the other one is the empty text.
pub data Content : Type 0 where
  address alias : Text → Content

-- An item that was fetched has an id.
pub record Item : Type 0 where
  pub id : Option Text
  pub content : Content
  pub type : Text

pub record ServerItem : Type 0 where
  pub id : Text
  pub alias_id : Text
  pub value : Text
  pub server_type : Text

-- `fromServer`; `servers` says that the list is that of the servers.
unfoldable pub from_server : Bool → ServerItem → Item
from_server servers it = record {
  id = some it.id;
  content = if is_nil it.alias_id then address (shown_addr it.value) else alias it.alias_id;
  type = if servers then it.server_type else [];
}

abbrev pub same_content : Content → Content → Bool
same_content (address a) (address b) = text_eq a b
same_content (address a) (alias b) = false
same_content (alias a) (address b) = false
same_content (alias a) (alias b) = text_eq a b

-- `itemKey(x) === itemKey(e)`
abbrev pub same_key : Item → Item → Bool
same_key x e = same_content x.content e.content && text_eq x.type e.type

-- What is staged for a row: null, 'add', 'edit' or 'del'.
pub data Pending : Type 0 where
  unchanged added edited removed : Pending

pub record Staged : Type 0 where
  pub item : Item
  pub p : Pending
  pub orig : Option Item

abbrev pub is_added : Pending → Bool
is_added unchanged = false
is_added added = true
is_added edited = false
is_added removed = false

abbrev pub is_removed : Pending → Bool
is_removed unchanged = false
is_removed added = false
is_removed edited = false
is_removed removed = true

abbrev pub is_pending : Pending → Bool
is_pending unchanged = false
is_pending added = true
is_pending edited = true
is_pending removed = true

abbrev pub kept : Item → Staged
kept item = record { item = item; p = unchanged; orig = none }

-- `e.orig || e`
abbrev pub item_before : Staged → Item
item_before s = elim s.orig [ none ↦ s.item | some o ↦ o ]

unfoldable pub set_item : Item → Staged → Staged
set_item nu old =
    let orig = item_before old in
    if is_added old.p
    then record { item = nu; p = added; orig = none }
    else if same_key nu orig
    then kept orig
    else record { item = nu; p = edited; orig = some orig }

-- `splice` and the other writes at an index; the rows that the one there becomes.
abbrev pub at_row : ℕ → (Staged → List Staged) → List Staged → List Staged
at_row i f [] = []
at_row zero f (s ∷ ss) = f s ++ ss
at_row (suc i) f (s ∷ ss) = s ∷ at_row i f ss

unfoldable pub dup_of : Item → List Staged → Bool
dup_of e rows = any (λ x. not (is_removed x.p) && same_key x.item e) rows

-- `dupOf` but for the row at an index.
abbrev pub without_row : ℕ → List Staged → List Staged
without_row i rows = at_row i (λ s. []) rows

-- The item that the row at an index becomes: the first address, or the alias.
unfoldable pub edited_item : Bool → Text → Parsed → Item → Item
edited_item servers type (picked a) old = record old {
  content = alias a.id;
  type = if servers then type else [];
}
edited_item servers type (addrs []) old = record old {
  content = address [];
  type = if servers then type else [];
}
edited_item servers type (addrs (a ∷ rest)) old = record old {
  content = address a;
  type = if servers then type else [];
}

abbrev pub row_at : ℕ → List Staged → Option Staged
row_at i [] = none
row_at zero (s ∷ ss) = some s
row_at (suc i) (s ∷ ss) = row_at i ss

-- `doEdit` with a form that was accepted; `none` says that the item is in the list already.
unfoldable pub do_edit : Bool → ℕ → Text → Parsed → List Staged → Option (List Staged)
do_edit servers i type r rows = elim (row_at i rows) [
  | none ↦ none
  | some old ↦
      let nu = edited_item servers type r old.item in
      if dup_of nu (without_row i rows)
      then none
      else some (at_row i (λ s. set_item nu s ∷ []) rows)
]

-- The buttons "Remove", "Keep it" and "Undo the change".
unfoldable pub delete_row : Staged → List Staged
delete_row s = if is_added s.p then [] else record s { p = removed } ∷ []

unfoldable pub undo_row : Staged → List Staged
undo_row s = elim s.orig [
  | none ↦ record s { p = unchanged } ∷ []
  | some o ↦ record s { p = edited } ∷ []
]

-- The button is at an edited row, which has an item from before.
unfoldable pub revert_row : Staged → List Staged
revert_row s = kept (item_before s) ∷ []

unfoldable pub new_items : Bool → Text → Parsed → List Item
new_items servers type (picked a) =
    record { id = none; content = alias a.id; type = if servers then type else [] } ∷ []
new_items servers type (addrs values) =
    map (λ v. record { id = none; content = address v; type = if servers then type else [] }) values

-- The filter: not in the list, and the first with its key.
unfoldable pub made_of : List Staged → List Item → List Item → List Item
made_of rows before [] = []
made_of rows before (m ∷ ms) =
    let rest = made_of rows (m ∷ before) ms in
    if not (dup_of m rows) && not (any (λ o. same_key o m) before) then m ∷ rest else rest

abbrev pub live : List Staged → List Staged
live rows = keep (λ e. not (is_removed e.p)) rows

unfoldable pub live_count : List Staged → ℕ
live_count rows = length (live rows)

pub data AddError : Type 0 where
  in_the_list over_the_limit : AddError

abbrev pub as_added : Item → Staged
as_added m = record { item = m; p = added; orig = none }

-- `doAdd` with a form that was accepted.
unfoldable pub do_add : Bool → ℕ → Text → Parsed → List Staged → Result AddError (List Staged)
do_add servers limit type r rows =
    let made = made_of rows [] (new_items servers type r) in
    if is_nil made
    then err in_the_list
    else if ltb limit (live_count rows + length made)
    then err over_the_limit
    else ok (map as_added made ++ rows)

unfoldable pub discard : List Staged → List Staged
discard rows = map (λ e. kept (item_before e)) (keep (λ e. not (is_added e.p)) rows)

unfoldable pub pending_items : List Staged → List Staged
pending_items rows = keep (λ e. is_pending e.p) rows

-- What is sent for a list; the type of a network is the empty text.
unfoldable pub list_body : List Staged → List (Content × Text)
list_body rows = map (λ e. (e.item.content, e.item.type)) (live rows)
