-- ===== src/SystemLogs/Entries/Sorted.antt =====
-- The list of entries: its order and its ids.
use networkat_cloud_web_app.Prelude.{
  ℕ, ◌+◌, ◌≡◌, ◌≤◌, ◌<◌, refl, sym, ◌∙◌, ap, ap₂, Bool, true, false, not, ◌&&◌, ◌||◌, List, [], ◌∷◌,
  map, ltb, ◌==◌, if◌then◌else◌, arith, All, ==_iff, Bool-cases, inl, inr, ltb→lt,
}
use networkat_cloud_web_app.SystemLogs.Entries.{
  Entry, Logs, has_id, insert_sorted, add_entry, add_entries, is_masked, mask, mask_from,
  limit_or_five, enforce_gating,
}

abbrev pub ids_of : List Entry → List ℕ
ids_of = map (λ r. r.id)

-- Newest first, no id twice.
abbrev pub Descends : List ℕ → Type 0
Descends [] = Unit
Descends (k ∷ ks) = All (λ j. j < k) ks × Descends ks

-- The rows are sorted, `ids` has exactly their ids, and no id is above `top_id`.
pub record IsOrdered (s : Logs) : Type 0 where
  pub descends : Descends (ids_of s.rows)
  pub same_ids : (k : ℕ) → has_id k s.ids ≡ has_id k (ids_of s.rows)
  pub top : All (λ j. j ≤ s.top_id) (ids_of s.rows)

pub has_id-insert_sorted :
    (k : ℕ) (e : Entry) (rs : List Entry)
    → has_id k (ids_of (insert_sorted e rs)) ≡ (e.id == k || has_id k (ids_of rs))
unfolding insert_sorted
has_id-insert_sorted k e [] = refl
has_id-insert_sorted k e (r ∷ rs) = ground (arith, has_id-insert_sorted k e rs)

All-insert_sorted :
    (P : ℕ → Type 0) (e : Entry) (rs : List Entry)
    → P e.id
    → All P (ids_of rs)
    → All P (ids_of (insert_sorted e rs))
unfolding insert_sorted
All-insert_sorted P e [] h hs = (h, tt)
All-insert_sorted P e (r ∷ rs) h (p, hs) = elim (Bool-cases (ltb r.id e.id)) [
  | inl newer ↦ rw (insert_sorted, newer) (h, (p, hs))
  | inr older ↦ rw (insert_sorted, older) (p, All-insert_sorted P e rs h hs)
]

All-below : (a b : ℕ) (ks : List ℕ) → a ≤ b → All (λ j. j < a) ks → All (λ j. j < b) ks
All-below a b [] h _ = tt
All-below a b (k ∷ ks) h (p, ps) = (omega arith, All-below a b ks h ps)

Descends-insert_sorted :
    (e : Entry) (rs : List Entry)
    → Descends (ids_of rs)
    → has_id e.id (ids_of rs) ≡ false
    → Descends (ids_of (insert_sorted e rs))
unfolding insert_sorted
Descends-insert_sorted e [] d h = (tt, tt)
Descends-insert_sorted e (r ∷ rs) (below, d) h = elim (Bool-cases (ltb r.id e.id)) [
  | inl newer ↦
      let lower : r.id < e.id = ltb→lt _ _ newer in
      rw (insert_sorted, newer)
        ((lower, All-below r.id e.id (ids_of rs) (omega arith) below), (below, d))
  | inr older ↦
      let higher : e.id < r.id = ground (arith, ==_iff r.id e.id) in
      rw (insert_sorted, older)
        (
          All-insert_sorted (λ j. j < r.id) e rs higher below,
          Descends-insert_sorted e rs d (ground arith),
        )
]

pub All-at_most : (a b : ℕ) (ks : List ℕ) → a ≤ b → All (λ j. j ≤ a) ks → All (λ j. j ≤ b) ks
All-at_most a b [] h _ = tt
All-at_most a b (k ∷ ks) h (p, ps) = (omega arith, All-at_most a b ks h ps)

pub add_entry-IsOrdered : (e : Entry) (s : Logs) → IsOrdered s → IsOrdered (add_entry e s)
unfolding add_entry
add_entry-IsOrdered e s o = elim (Bool-cases (has_id e.id s.ids)) [
  | inl seen ↦ rw (add_entry, seen) o
  | inr fresh ↦
      let top : ℕ = if ltb s.top_id e.id then e.id else s.top_id in
      rw (add_entry, fresh)
        (record {
          descends = Descends-insert_sorted e s.rows o.descends (sym (o.same_ids e.id) ∙ fresh);
          same_ids =
              λ k. ap (λ b. e.id == k || b) (o.same_ids k) ∙ sym (has_id-insert_sorted k e s.rows);
          top =
              All-insert_sorted (λ j. j ≤ top) e s.rows (ground arith)
                (All-at_most s.top_id top (ids_of s.rows) (ground arith) o.top);
        })
]

pub add_entries-IsOrdered :
    (es : List Entry) (s : Logs) → IsOrdered s → IsOrdered (add_entries es s)
unfolding add_entries
add_entries-IsOrdered [] s o = o
add_entries-IsOrdered (e ∷ es) s o =
    add_entries-IsOrdered es (add_entry e s) (add_entry-IsOrdered e s o)

mask_from-ids :
    (limit : ℕ) (rs : List Entry) (count : ℕ) → ids_of (mask_from limit count rs) ≡ ids_of rs
unfolding mask_from mask
mask_from-ids limit [] count = refl
mask_from-ids limit (r ∷ rs) count =
    ap₂ ◌∷◌ (kept (ltb count limit))
      (mask_from-ids limit rs (if ltb count limit && not (is_masked r) then count + 1 else count))
  where
    kept : (b : Bool) → (if b then r else mask r).id ≡ r.id
    kept true = refl
    kept false = refl

pub enforce_gating-IsOrdered : (s : Logs) → IsOrdered s → IsOrdered (enforce_gating s)
unfolding enforce_gating
enforce_gating-IsOrdered s o = go s.is_gated
  where
    same : ids_of (mask_from (limit_or_five s.trial_limit) 0 s.rows) ≡ ids_of s.rows
    same = mask_from-ids (limit_or_five s.trial_limit) s.rows 0

    go :
        (gated : Bool)
        → IsOrdered (
            if not gated
            then s
            else record s { rows = mask_from (limit_or_five s.trial_limit) 0 s.rows })
    go false = o
    go true = record {
      descends = rw same o.descends;
      same_ids = λ k. o.same_ids k ∙ ap (has_id k) (sym same);
      top = rw same o.top;
    }
