-- ===== src/AliasLists/Save/Plan.antt =====
-- `submitAddressList`: its requests, one after another.
use networkat_cloud_web_app.Prelude.{
  ◌≡◌, ◌≢◌, ◌⊎◌, refl, ap, true, false, none, some, List, [], ◌∷◌, ◌++◌, any, All, Bool-cases,
  Option-cases, inl, inr,
}
use networkat_cloud_web_app.Prelude.Text.{trim}
use networkat_cloud_web_app.Alias.{Alias, AliasId, missing, number, text}
use networkat_cloud_web_app.AliasLists.Rows.{Entry}
use networkat_cloud_web_app.AliasLists.Requests.{
  Answer, Saved, Carried, one_request-Carried, two_requests-Carried,
}
use networkat_cloud_web_app.AliasLists.Save.{
  ListForm, Request, create_list, update_properties, update_items, update_list, ListsPage,
  has_id_field, is_new_agent, save_edit, save_list, form_entries, submit_address_list,
}

-- Some list, after those in front of it, has an id.
abbrev pub HasId : List Alias → Type 0
HasId lists =
    (before : List Alias) × (l : Alias) × (after : List Alias) × (lists ≡ before ++ l ∷ after)
    × (l.id ≢ missing)

-- The requests that are due for a form: a new list is created; a device whose lists have no ids
-- takes a list whole, and one whose lists have ids takes its properties and then its items.
pub data IsPlan (page : ListsPage) (form : ListForm) (entries : List Entry)
    : List Request → Type 0 where
  creating :
      form.is_edit ≡ false
      → IsPlan page form entries
          (create_list (trim form.name) (trim form.comment) form.type entries ∷ [])
  whole :
      form.is_edit ≡ true
      → All (λ l. l.id ≡ missing) page.cached_address_lists
      → IsPlan page form entries (update_list page.original_slug (trim form.comment) entries ∷ [])
  in_parts :
      form.is_edit ≡ true
      → HasId page.cached_address_lists
      → IsPlan page form entries (
          update_properties page.original_slug (trim form.name) (trim form.comment)
          ∷ update_items page.original_slug entries
          ∷ [])

id_or_missing :
    (i : AliasId)
    → ((has_id_field i ≡ true) × (i ≢ missing)) ⊎ ((has_id_field i ≡ false) × (i ≡ missing))
id_or_missing missing = inr (refl, refl)
id_or_missing (number n) = inl (refl, λ e. cc)
id_or_missing (text t) = inl (refl, λ e. cc)

any_id :
    (lists : List Alias)
    → ((any (λ l. has_id_field l.id) lists ≡ true) × HasId lists)
      ⊎ ((any (λ l. has_id_field l.id) lists ≡ false) × All (λ l. l.id ≡ missing) lists)
any_id [] = inr (refl, tt)
any_id (l ∷ lists) = elim (id_or_missing l.id) [
  | inl (yes_id, there) ↦ inl (rw yes_id refl, ([], l, lists, refl, there))
  | inr (no_id, gone) ↦ elim (any_id lists) [
    | inl (found, (before, m, after, split, there)) ↦
        inl (rw no_id found, (l ∷ before, m, after, ap (◌∷◌ l) split, there))
    | inr (nowhere, all_gone) ↦ inr (rw no_id nowhere, (gone, all_gone))
  ]
]

new_agent :
    (lists : List Alias)
    → ((is_new_agent lists ≡ true) × HasId lists)
      ⊎ ((is_new_agent lists ≡ false) × All (λ l. l.id ≡ missing) lists)
unfolding is_new_agent
new_agent [] = inr (refl, tt)
new_agent (l ∷ lists) = any_id (l ∷ lists)

save_list-Carried :
    (answers : Request → Answer) (page : ListsPage) (form : ListForm) (entries : List Entry)
    → (plan : List Request) × IsPlan page form entries plan
      × Carried answers plan (save_list answers page form entries)
unfolding save_list save_edit
save_list-Carried answers page form entries = elim (Bool-cases form.is_edit) [
  | inr new ↦ (_, creating new, rw new (one_request-Carried answers _))
  | inl edit ↦ elim (new_agent page.cached_address_lists) [
    | inl (listed, ids) ↦
        (_, in_parts edit ids, rw (edit, listed) (two_requests-Carried answers _ _))
    | inr (unlisted, no_ids) ↦
        (_, whole edit no_ids, rw (edit, unlisted) (one_request-Carried answers _))
  ]
]

-- A form makes no request exactly when it has an error. Otherwise the requests that are due are made
-- one after another: either all of them were taken, and only then the page says "Saved", or those up
-- to the first that was not taken were made. A changed list goes in two requests exactly to a device
-- that has a list with an id.
pub submit_address_list-Carried :
    (answers : Request → Answer) (page : ListsPage) (form : ListForm)
    → ((submit_address_list answers page form ≡ none) × (form_entries page form ≡ none))
      ⊎ ((entries : List Entry) × (form_entries page form ≡ some entries)
          × (saved : Saved Request) × (submit_address_list answers page form ≡ some saved)
          × (plan : List Request) × IsPlan page form entries plan
          × Carried answers plan saved)
unfolding submit_address_list
submit_address_list-Carried answers page form = elim (Option-cases (form_entries page form)) [
  | inl wrong ↦ inl (rw (submit_address_list, wrong) refl, wrong)
  | inr (entries, right) ↦
      let (due, is_due, carried) = save_list-Carried answers page form entries in
      inr (
        entries,
        right,
        save_list answers page form entries,
        rw (submit_address_list, right) refl,
        due,
        is_due,
        carried,
      )
]
