-- ===== src/SystemLogs/Entries/Races.antt =====
-- Answers that arrive in another order than they were asked for.
use networkat_cloud_web_app.Prelude.{
  ℕ, ◌+◌, ◌≡◌, ◌<◌, refl, sym, ◌∙◌, ap, ap₂, Bool, true, false, ◌||◌, List, [], ◌∷◌, ltb, ◌==◌,
  if◌then◌else◌, arith, All, ==_iff, Bool-cases, inl, inr,
}
use networkat_cloud_web_app.SystemLogs.Entries.{
  Entry, Logs, has_id, insert_sorted, add_entry, add_entries, Answer, reload_started,
  reload_answered,
}
use networkat_cloud_web_app.SystemLogs.Entries.Sorted.{
  ids_of, Descends, IsOrdered, has_id-insert_sorted, add_entry-IsOrdered, add_entries-IsOrdered,
}

add_entry-ids :
    (k : ℕ) (e : Entry) (s : Logs)
    → IsOrdered s
    → has_id k (ids_of (add_entry e s).rows) ≡ (e.id == k || has_id k (ids_of s.rows))
unfolding add_entry
add_entry-ids k e s o = elim (Bool-cases (has_id e.id s.ids)) [
  | inl seen ↦ rw (add_entry, seen) (shown (sym (o.same_ids e.id) ∙ seen))
  | inr fresh ↦ rw (add_entry, fresh) (has_id-insert_sorted k e s.rows)
]
  where
    shown :
        has_id e.id (ids_of s.rows) ≡ true
        → has_id k (ids_of s.rows) ≡ (e.id == k || has_id k (ids_of s.rows))
    shown h = elim (Bool-cases (e.id == k)) [
      | inl same ↦ rw same (ap (λ j. has_id j (ids_of s.rows)) (sym ((==_iff e.id k).0 same)) ∙ h)
      | inr other ↦ rw other refl
    ]

-- Adding entries to an ordered list loses none: a number is shown afterwards exactly when it was
-- shown before or one of the new entries has it.
pub add_entries-ids :
    (k : ℕ) (es : List Entry) (s : Logs)
    → IsOrdered s
    → has_id k (ids_of (add_entries es s).rows) ≡ (has_id k (ids_of es) || has_id k (ids_of s.rows))
unfolding add_entries
add_entries-ids k [] s o = refl
add_entries-ids k (e ∷ es) s o =
    let later = add_entries-ids k es (add_entry e s) (add_entry-IsOrdered e s o) in
    let now = add_entry-ids k e s o in ground (arith, later, now)

has_id-above : (k : ℕ) (ks : List ℕ) → All (λ j. j < k) ks → has_id k ks ≡ false
has_id-above k [] h = refl
has_id-above k (j ∷ ks) (p, h) = ground (arith, has_id-above k ks h)

not_above : (k n : ℕ) (ks : List ℕ) → All (λ j. j < k) ks → k < n → has_id n ks ≡ false
not_above k n [] h l = refl
not_above k n (j ∷ ks) (p, h) l = ground (arith, not_above k n ks h l)

-- A set of numbers has one descending list.
Descends-unique :
    (ks js : List ℕ) → Descends ks → Descends js → ((k : ℕ) → has_id k ks ≡ has_id k js) → ks ≡ js
Descends-unique [] [] d d' same = refl
Descends-unique [] (j ∷ js) d d' same = ground (arith, same j)
Descends-unique (k ∷ ks) [] d d' same = ground (arith, same k)
Descends-unique (k ∷ ks) (j ∷ js) (below, d) (below', d') same =
    ap₂ ◌∷◌ heads (Descends-unique ks js d d' tails)
  where
    heads : k ≡ j
    heads = ground (arith, same k, same j, not_above k j ks below, not_above j k js below')

    tails : (n : ℕ) → has_id n ks ≡ has_id n js
    tails n = elim (Bool-cases (k == n)) [
      | inl e ↦
          let is_k : k ≡ n = (==_iff k n).0 e in
          has_id-above n ks (rw (sym is_k) below)
          ∙ sym (has_id-above n js (rw (sym is_k, heads) below'))
      | inr e ↦ ground (arith, same n, heads, e)
    ]

-- Two batches added to an ordered list give the same numbers in the same order, whichever comes
-- first.
pub add_entries_comm :
    (es fs : List Entry) (s : Logs)
    → IsOrdered s
    → ids_of (add_entries es (add_entries fs s)).rows
      ≡ ids_of (add_entries fs (add_entries es s)).rows
add_entries_comm es fs s o =
    let fs_first = add_entries-IsOrdered fs s o in
    let es_first = add_entries-IsOrdered es s o in
    Descends-unique _ _ (add_entries-IsOrdered es (add_entries fs s) fs_first).descends
      (add_entries-IsOrdered fs (add_entries es s) es_first).descends
      (λ k.
        let a = add_entries-ids k es (add_entries fs s) fs_first in
        let b = add_entries-ids k fs s o in
        let c = add_entries-ids k fs (add_entries es s) es_first in
        let d = add_entries-ids k es s o in ground (arith, a, b, c, d))

reload_answered_stale :
    (seq : ℕ) (answer : Answer) (s : Logs)
    → (seq == s.reload_seq) ≡ false
    → reload_answered seq answer s ≡ s
unfolding reload_answered
reload_answered_stale seq answer s h = rw (reload_answered, h) refl

add_entries-reload_seq : (es : List Entry) (s : Logs) → (add_entries es s).reload_seq ≡ s.reload_seq
unfolding add_entries add_entry
add_entries-reload_seq [] s = refl
add_entries-reload_seq (e ∷ es) s =
    add_entries-reload_seq es (add_entry e s) ∙ kept (has_id e.id s.ids)
  where
    kept :
        (seen : Bool)
        → (if seen then s else record s {
          ids = e.id ∷ s.ids;
          rows = insert_sorted e s.rows;
          top_id = if ltb s.top_id e.id then e.id else s.top_id;
        }).reload_seq
          ≡ s.reload_seq
    kept true = refl
    kept false = refl

reload_answered-reload_seq :
    (seq : ℕ) (answer : Answer) (s : Logs)
    → (reload_answered seq answer s).reload_seq ≡ s.reload_seq
unfolding reload_answered
reload_answered-reload_seq seq answer s = elim (Bool-cases (seq == s.reload_seq)) [
  | inl current ↦ rw (reload_answered, current) (add_entries-reload_seq answer.entries _)
  | inr stale ↦ rw (reload_answered, stale) refl
]

-- Of two reloads under way, the page ends as the later one says, whichever is answered first.
pub reload_answered_comm :
    (earlier later : Answer) (s : Logs)
    → let n = s.reload_seq in
      let t = reload_started (reload_started s) in
      reload_answered (n + 2) later (reload_answered (n + 1) earlier t)
      ≡ reload_answered (n + 1) earlier (reload_answered (n + 2) later t)
unfolding reload_started
reload_answered_comm earlier later s =
    let n = s.reload_seq in
    let t = reload_started (reload_started s) in
    let u = reload_answered (n + 2) later t in
    let is_seq : u.reload_seq ≡ n + 1 + 1 = reload_answered-reload_seq (n + 2) later t in
    ap (reload_answered (n + 2) later) (reload_answered_stale (n + 1) earlier t (ground arith))
    ∙ sym (reload_answered_stale (n + 1) earlier u (rw is_seq (ground arith)))
