-- ===== src/AliasLists/Rows/Again.antt =====
-- A form that was sent, with the values that its rows then show.
use networkat_cloud_web_app.Prelude.{
  ◌≡◌, refl, sym, ◌∙◌, ap, Bool, true, false, some, List, [], ◌∷◌, map, is_nil, ok,
}
use networkat_cloud_web_app.Prelude.Text.{Text, trim}
use networkat_cloud_web_app.Prelude.Text.Trimming.{IsTrimmed}
use networkat_cloud_web_app.Firewall.AliasEntry.{EntryType}
use networkat_cloud_web_app.AliasLists.Rows.{
  Row, Entry, Validator, or_null, normalized_or, key_of, check_rows, sent_entries,
}
use networkat_cloud_web_app.AliasLists.Rows.Reads.{
  IsRead, AreRead, done, more, check_rows-Reads, check_rows_complete, sent_entries_tests,
}

-- What the loop asks of a validator: its normal forms are trimmed, and are accepted as they stand.
pub record IsStable (validate : Validator) : Type 0 where
  pub trimmed :
      (v : Text) (type : EntryType) (u : Text) → validate (trim v) ≡ ok (type, u) → IsTrimmed u
  pub again :
      (v : Text) (type : EntryType) (u : Text)
      → validate v ≡ ok (type, u)
      → validate u ≡ ok (type, u)

-- The rows with the values that their fields show.
abbrev pub retyped : List Row → List Text → List Row
retyped [] vs = []
retyped (row ∷ rows) [] = row ∷ rows
retyped (row ∷ rows) (v ∷ vs) = record row { value = v } ∷ retyped rows vs

normalized_or-full : (u v : Text) → is_nil u ≡ false → normalized_or u v ≡ u
normalized_or-full u v h = rw h refl

module _ (validate : Validator) (web_domain : Bool) (stable : IsStable validate) where
  IsRead-retyped :
      (row : Row) (e : Entry)
      → IsRead validate web_domain row e
      → IsRead validate web_domain (record row { value = e.value }) e
  IsRead-retyped row e r =
      let (same, full) = stable.trimmed row.value r.type r.normalized r.valid in
      let kept : e.value ≡ r.normalized =
        ap (λ x. x.value) r.entry ∙ normalized_or-full r.normalized (trim row.value) full in
      let shown : trim e.value ≡ r.normalized = ap trim kept ∙ same in
      record {
        type = r.type;
        normalized = r.normalized;
        filled = ap is_nil shown ∙ full;
        valid = ap validate shown ∙ stable.again (trim row.value) r.type r.normalized r.valid;
        entry =
            r.entry
            ∙ ap
                (λ v.
                  let x : Entry = record {
                    type = key_of web_domain r.type;
                    value = v;
                    comment = or_null (trim row.comment);
                  } in
                  x)
                (normalized_or-full r.normalized (trim row.value) full
                  ∙ sym (normalized_or-full r.normalized (trim e.value) full));
      }

  AreRead-retyped :
      {rows : List Row} {es : List Entry}
      → AreRead validate web_domain rows es
      → AreRead validate web_domain (retyped rows (map (λ e. e.value) es)) es
  AreRead-retyped done = done
  AreRead-retyped (more {row} {rows} {e} {es} r rs) =
      more (IsRead-retyped row e r) (AreRead-retyped rs)

  -- The loop over the rows that a loop without marks leaves gives the same again.
  pub check_rows-again :
      (rows : List Row)
      → is_nil (check_rows validate web_domain [] rows).marks ≡ true
      → check_rows validate web_domain []
          (retyped rows (check_rows validate web_domain [] rows).values)
        ≡ check_rows validate web_domain [] rows
  check_rows-again rows clean =
      let (reads, chain) = check_rows-Reads validate web_domain [] rows clean in
      let first = check_rows_complete validate web_domain [] reads chain in
      let second = check_rows_complete validate web_domain [] (AreRead-retyped reads) chain in
      ap (λ r. check_rows validate web_domain [] (retyped rows r.values)) first ∙ second ∙ sym first

  pub sent_entries-again :
      (name_fits comment_fits : Bool) (rows : List Row) (es : List Entry)
      → sent_entries name_fits comment_fits (check_rows validate web_domain [] rows) ≡ some es
      → sent_entries name_fits comment_fits (
          check_rows validate web_domain []
            (retyped rows (check_rows validate web_domain [] rows).values))
        ≡ some es
  sent_entries-again name_fits comment_fits rows es h =
      let (_, _, clean, _, _, _) =
        sent_entries_tests name_fits comment_fits (check_rows validate web_domain [] rows) es h in
      ap (sent_entries name_fits comment_fits) (check_rows-again rows clean) ∙ h
