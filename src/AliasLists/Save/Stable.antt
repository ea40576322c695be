-- ===== src/AliasLists/Save/Stable.antt =====
-- `submitAddressList`: the lists that are sent, and the form sent again.
use networkat_cloud_web_app.Prelude.{
  ◌≡◌, ◌↔◌, ◌≤◌, refl, sym, ◌∙◌, ap, Bool, true, false, Option, some, List, map, length, is_nil, ok,
  is_ok, arith, Option-cases, inl, inr,
}
use networkat_cloud_web_app.Prelude.Text.{Text, codes, text_eq, trim}
use networkat_cloud_web_app.Prelude.Text.Trimming.{IsTrimmed, trim-trim}
use networkat_cloud_web_app.Firewall.Addresses.Distinct.{IsDistinct}
use networkat_cloud_web_app.Firewall.Addresses.Stable.{normalized-IsPart}
use networkat_cloud_web_app.Firewall.AliasEntry
use networkat_cloud_web_app.Firewall.AliasEntry.{
  EntryType, Upstream, validate_alias_name, validate_alias_comment,
}
use networkat_cloud_web_app.Firewall.AliasEntry.Kinds.{
  IsEntry, a_domain, an_address, a_hostname, validate_alias_entry-IsEntry,
}
use networkat_cloud_web_app.Firewall.AliasEntry.Stable.{validate_alias_entry-stable}
use networkat_cloud_web_app.AliasLists.Entry.{get_local_forwarding_domains, validate_alias_entry}
use networkat_cloud_web_app.AliasLists.Entry.ByDomains.{
  as_upstreams, validate_alias_entry-by_domains,
}
use networkat_cloud_web_app.AliasLists.Rows.{Row, Entry}
use networkat_cloud_web_app.AliasLists.Rows.Reads.{
  AreRead, lower_value, length_pos, sent_entries_iff,
}
use networkat_cloud_web_app.AliasLists.Rows.Again.{IsStable, retyped, sent_entries-again}
use networkat_cloud_web_app.AliasLists.Requests.{Answer, Saved}
use networkat_cloud_web_app.AliasLists.Save.{
  ListForm, Request, ListsPage, save_edit, save_list, form_rows, form_entries, submit_address_list,
}

IsEntry-IsTrimmed :
    {config : Option (List Upstream)} {web : Bool} {t u : Text} {type : EntryType}
    → IsTrimmed t
    → IsEntry config web t type u
    → IsTrimmed u
IsEntry-IsTrimmed h (a_domain _ _ _) = h
IsEntry-IsTrimmed {t = t} h (an_address r _ e) =
    let part = normalized-IsPart t r e in (part.0.trimmed, part.0.full)
IsEntry-IsTrimmed h (a_hostname _ _ _ _ _) = h

firewall-IsTrimmed :
    (config : Option (List Upstream)) (type v u : Text) (ty : EntryType)
    → AliasEntry.validate_alias_entry config type (trim v) ≡ ok (ty, u)
    → IsTrimmed u
unfolding AliasEntry.validate_alias_entry
firewall-IsTrimmed config type v u ty h =
    let full : is_nil (trim (trim v)) ≡ false = ground (arith, h) in
    IsEntry-IsTrimmed (trim-trim (trim v), full)
      (validate_alias_entry-IsEntry config type (trim v) u ty h)

abbrev config_of : List Text → Option (List Upstream)
config_of us = some (as_upstreams (get_local_forwarding_domains us))

-- The page's validator can be used by the loop over the rows.
validate_alias_entry-IsStable :
    (us : List Text) (type : Text) → IsStable (validate_alias_entry us type)
validate_alias_entry-IsStable us type = record {
  trimmed = λ v ty u h.
      firewall-IsTrimmed (config_of us) type v u ty
        (sym (validate_alias_entry-by_domains us type (trim v)) ∙ h);
  again = λ v ty u h.
      validate_alias_entry-by_domains us type u
      ∙ validate_alias_entry-stable (config_of us) type v u ty
          (sym (validate_alias_entry-by_domains us type v) ∙ h);
}

name_fits_iff :
    (s : Text)
    → (is_ok (validate_alias_name (trim s)) ≡ true)
      ↔ ((1 ≤ length (trim s)) × (length (trim s) ≤ 200))
unfolding validate_alias_name
name_fits_iff s = (
  λ h. ground (arith, h, trim-trim s, length_pos (trim s)),
  λ (low, high). ground (arith, low, high, trim-trim s, length_pos (trim s)),
)

comment_fits_iff : (s : Text) → (validate_alias_comment s ≡ true) ↔ (length s ≤ 200)
unfolding validate_alias_comment
comment_fits_iff s = (λ h. ground (arith, h), λ h. ground (arith, h))

-- The entries of a form that makes a request, exactly: its trimmed name has 1 to 200 code units and
-- its trimmed comment at most 200, and there is one entry for each row, 1 to 256 of them, no two with
-- the same value up to case.
pub form_entries_iff :
    (page : ListsPage) (form : ListForm) (es : List Entry)
    → (form_entries page form ≡ some es) ↔ (
        (1 ≤ length (trim form.name))
        × (length (trim form.name) ≤ 200)
        × (length (trim form.comment) ≤ 200)
        × AreRead
            (validate_alias_entry page.upstream_dns form.type)
            (text_eq form.type (codes "web_domain"))
            form.rows
            es
        × IsDistinct (map lower_value es)
        × (1 ≤ length es)
        × (length es ≤ 256))
unfolding form_entries form_rows
form_entries_iff page form es =
    let sent =
      sent_entries_iff (validate_alias_entry page.upstream_dns form.type)
        (text_eq form.type (codes "web_domain")) (is_ok (validate_alias_name (trim form.name)))
        (validate_alias_comment (trim form.comment)) form.rows es in
    let named = name_fits_iff form.name in
    let commented = comment_fits_iff (trim form.comment) in
    (
      λ h.
          (let (n, c, read, distinct, low, high) = sent.0 h in
            ((named.0 n).0, (named.0 n).1, commented.0 c, read, distinct, low, high)),
      λ (n, n', c, read, distinct, low, high).
          sent.1 (named.1 (n, n'), commented.1 c, read, distinct, low, high),
    )

form_entries-again :
    (page : ListsPage) (form : ListForm) (es : List Entry)
    → form_entries page form ≡ some es
    → form_entries page (record form { rows = retyped form.rows (form_rows page form).values })
      ≡ some es
unfolding form_entries form_rows
form_entries-again page form es h =
    sent_entries-again (validate_alias_entry page.upstream_dns form.type)
      (text_eq form.type (codes "web_domain"))
      (validate_alias_entry-IsStable page.upstream_dns form.type)
      (is_ok (validate_alias_name (trim form.name))) (validate_alias_comment (trim form.comment))
      form.rows es h

save_list-retyped :
    (answers : Request → Answer) (page : ListsPage) (form : ListForm) (rows : List Row)
    (es : List Entry)
    → save_list answers page (record form { rows = rows }) es ≡ save_list answers page form es
unfolding save_list save_edit
save_list-retyped answers page form rows es = refl

-- A form that makes requests makes the same requests when it is sent again with the values that its
-- rows then show, if the server gives the same answers.
pub submit_address_list-again :
    (answers : Request → Answer) (page : ListsPage) (form : ListForm) (saved : Saved Request)
    → submit_address_list answers page form ≡ some saved
    → submit_address_list answers page
        (record form { rows = retyped form.rows (form_rows page form).values })
      ≡ some saved
unfolding submit_address_list
submit_address_list-again answers page form saved h =
    let form' = record form { rows = retyped form.rows (form_rows page form).values } in
    elim (Option-cases (form_entries page form)) [
      | inl wrong ↦
          let never = rw (submit_address_list, wrong) at h in absurd (ground (arith, never))
      | inr (es, right) ↦
          let sent = rw (submit_address_list, right) at h in
          rw (submit_address_list, form_entries-again page form es right)
            (ap some (save_list-retyped answers page form _ es) ∙ sent)
    ]
