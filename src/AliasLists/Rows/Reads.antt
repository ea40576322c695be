-- ===== src/AliasLists/Rows/Reads.antt =====
-- The loop over the rows: what a form without marks sends.
use networkat_cloud_web_app.Prelude.{
  ◌≡◌, ◌≢◌, ◌↔◌, ◌≤◌, refl, sym, ◌∙◌, ap, subst, Bool, true, false, some, List, [], ◌∷◌, map,
  length, is_nil, arith, ok, Bool-cases, Result-cases, inl, inr,
}
use networkat_cloud_web_app.Prelude.Text.{Text, trim, to_lower}
use networkat_cloud_web_app.Firewall.Addresses.{member}
use networkat_cloud_web_app.Firewall.Addresses.Distinct.{
  IsDistinct, FreshChain, FreshChain-IsDistinct, All-Fresh_nil,
}
use networkat_cloud_web_app.Firewall.AliasEntry.{EntryType}
use networkat_cloud_web_app.AliasLists.Rows.{
  Row, Entry, RowMark, required_row, duplicate_item, not_valid, Validator, or_null, normalized_or,
  key_of, RowStep, marked, entered, row_step, Rows, seen_after, add_step, check_rows, sent_entries,
}

-- The entry is what the validator makes of the row.
pub record IsRead (validate : Validator) (web_domain : Bool) (row : Row) (e : Entry) : Type 0 where
  pub type : EntryType
  pub normalized : Text
  pub filled : is_nil (trim row.value) ≡ false
  pub valid : validate (trim row.value) ≡ ok (type, normalized)
  pub entry : e ≡ record {
    type = key_of web_domain type;
    value = normalized_or normalized (trim row.value);
    comment = or_null (trim row.comment);
  }

pub data AreRead (validate : Validator) (web_domain : Bool) : List Row → List Entry → Type 0 where
  done : AreRead validate web_domain [] []
  more :
      {row : Row} {rows : List Row} {e : Entry} {es : List Entry}
      → IsRead validate web_domain row e
      → AreRead validate web_domain rows es
      → AreRead validate web_domain (row ∷ rows) (e ∷ es)

abbrev pub lower_value : Entry → Text
lower_value e = to_lower e.value

entered-injective : (a b : Entry) → entered a ≡ entered b → a ≡ b
entered-injective a b h = cc

not-entered : (m : RowMark) (v : Text) (e : Entry) → marked m v ≢ entered e
not-entered m v e h = cc

pub length_pos {ℓ} : {A : Type ℓ} (xs : List A) → (is_nil xs ≡ false) ↔ (1 ≤ length xs)
length_pos [] = (λ h. cc, λ h. absurd (omega (arith, h)))
length_pos (x ∷ xs) = (λ h. omega arith, λ h. refl)

pub sent_entries_tests :
    (name_fits comment_fits : Bool) (r : Rows) (es : List Entry)
    → sent_entries name_fits comment_fits r ≡ some es
    → (name_fits ≡ true)
      × (comment_fits ≡ true)
      × (is_nil r.marks ≡ true)
      × (r.entries ≡ es)
      × (is_nil r.entries ≡ false)
      × (length r.entries ≤ 256)
unfolding sent_entries
sent_entries_tests name_fits comment_fits r es h = ground arith

sent_entries_lem :
    (es : List Entry) (values : List Text)
    → 1 ≤ length es
    → length es ≤ 256
    → sent_entries true true (record { entries = es; marks = []; values = values }) ≡ some es
unfolding sent_entries
sent_entries_lem es values low high = ground (arith, (length_pos es).1 low)

module _ (validate : Validator) (web_domain : Bool) where
  abbrev pub entry_of : EntryType → Text → Row → Entry
  entry_of type normalized row = record {
    type = key_of web_domain type;
    value = normalized_or normalized (trim row.value);
    comment = or_null (trim row.comment);
  }

  row_step-Reads :
      (seen : List Text) (row : Row) (e : Entry)
      → row_step validate web_domain seen row ≡ entered e
      → IsRead validate web_domain row e × (member (lower_value e) seen ≡ false)
  unfolding row_step
  row_step-Reads seen row e h = elim (Bool-cases (is_nil (trim row.value))) [
    | inl empty ↦ absurd (not-entered required_row row.value e (rw (row_step, empty) at h))
    | inr full ↦ elim (Result-cases (validate (trim row.value))) [
      | inr (x, bad) ↦
          absurd (not-entered (not_valid x) row.value e (rw (row_step, full, bad) at h))
      | inl ((type, normalized), good) ↦
          let value = normalized_or normalized (trim row.value) in
          elim (Bool-cases (member (to_lower value) seen)) [
            | inl old ↦
                absurd (not-entered duplicate_item value e (rw (row_step, full, good, old) at h))
            | inr new ↦
                let is_e : entry_of type normalized row ≡ e =
                  entered-injective _ e (rw (row_step, full, good, new) at h) in
                (
                  record {
                    type = type;
                    normalized = normalized;
                    filled = full;
                    valid = good;
                    entry = sym is_e;
                  },
                  ap (λ x. member (lower_value x) seen) (sym is_e) ∙ new,
                )
          ]
    ]
  ]

  row_step_complete :
      (seen : List Text) (row : Row) (e : Entry)
      → IsRead validate web_domain row e
      → member (lower_value e) seen ≡ false
      → row_step validate web_domain seen row ≡ entered e
  unfolding row_step
  row_step_complete seen row e r new =
      let new' : member (to_lower (normalized_or r.normalized (trim row.value))) seen ≡ false =
        ap (λ x. member (lower_value x) seen) (sym r.entry) ∙ new in
      rw (row_step, r.filled, r.valid, new') (ap entered (sym r.entry))

  -- A loop that leaves no mark has read every row, and no value was seen before.
  pub check_rows-Reads :
      (seen : List Text) (rows : List Row)
      → is_nil (check_rows validate web_domain seen rows).marks ≡ true
      → AreRead validate web_domain rows (check_rows validate web_domain seen rows).entries
        × FreshChain seen (map lower_value (check_rows validate web_domain seen rows).entries)
  unfolding check_rows
  check_rows-Reads seen [] h = (done, tt)
  check_rows-Reads seen (row ∷ rows) h =
      go (row_step validate web_domain seen row) refl h
        (λ e. check_rows-Reads (lower_value e ∷ seen) rows)
    where
      go :
          (step : RowStep)
          → row_step validate web_domain seen row ≡ step
          → is_nil
              (add_step step (check_rows validate web_domain (seen_after step seen) rows)).marks
            ≡ true
          → ((e : Entry)
              → is_nil (check_rows validate web_domain (lower_value e ∷ seen) rows).marks ≡ true
              → AreRead validate web_domain rows
                  (check_rows validate web_domain (lower_value e ∷ seen) rows).entries
                × FreshChain (lower_value e ∷ seen) (
                    map lower_value
                      (check_rows validate web_domain (lower_value e ∷ seen) rows).entries))
          → AreRead validate web_domain
              (row ∷ rows)
              (add_step step (check_rows validate web_domain (seen_after step seen) rows)).entries
            × FreshChain seen (
                map lower_value
                  (add_step step
                    (check_rows validate web_domain (seen_after step seen) rows)).entries)
      go (marked m v) is_step h later = cc
      go (entered e) is_step h later =
          let (read, new) = row_step-Reads seen row e is_step in
          let (reads, chain) = later e h in (more read reads, (new, chain))

  abbrev pub rows_of : List Entry → Rows
  rows_of es = record { entries = es; marks = []; values = map (λ e. e.value) es }

  pub check_rows_complete :
      {rows : List Row} {es : List Entry} (seen : List Text)
      → AreRead validate web_domain rows es
      → FreshChain seen (map lower_value es)
      → check_rows validate web_domain seen rows ≡ rows_of es
  unfolding check_rows
  check_rows_complete seen done chain = refl
  check_rows_complete seen (more {row} {rows} {e} {es} read reads) (new, chain) =
      rw
        (
          row_step_complete seen row e read new,
          check_rows_complete (lower_value e ∷ seen) reads chain,
        )
        refl

  -- The entries of a form that is sent, exactly: one for each row, as the validator reads it, no two
  -- with the same value up to case, and 1 to 256 of them.
  pub sent_entries_iff :
      (name_fits comment_fits : Bool) (rows : List Row) (es : List Entry)
      → (sent_entries name_fits comment_fits (check_rows validate web_domain [] rows) ≡ some es) ↔ (
          (name_fits ≡ true)
          × (comment_fits ≡ true)
          × AreRead validate web_domain rows es
          × IsDistinct (map lower_value es)
          × (1 ≤ length es)
          × (length es ≤ 256))
  sent_entries_iff name_fits comment_fits rows es = (
    λ h.
        (let (n, c, clean, is_es, some_entry, few) =
            sent_entries_tests name_fits comment_fits (check_rows validate web_domain [] rows) es
              h in
          let (reads, chain) = check_rows-Reads [] rows clean in
          subst
            (λ xs.
              (name_fits ≡ true)
              × (comment_fits ≡ true)
              × AreRead validate web_domain rows xs
              × IsDistinct (map lower_value xs)
              × (1 ≤ length xs)
              × (length xs ≤ 256))
            is_es
            (
              n,
              c,
              reads,
              ((FreshChain-IsDistinct [] _).0 chain).1,
              (length_pos _).0 some_entry,
              few,
            )),
    λ (n, c, reads, distinct, low, high).
        (let chain =
            (FreshChain-IsDistinct [] (map lower_value es)).1 (All-Fresh_nil _, distinct) in
          rw (n, c, check_rows_complete [] reads chain)
            (sent_entries_lem es (map (λ e. e.value) es) low high)),
  )
