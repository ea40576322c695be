-- ===== src/SystemLogs/Entries/Gating.antt =====
-- `enforceGating`: how many entries a gated page shows.
use networkat_cloud_web_app.Prelude.{
  ℕ, ◌+◌, ◌≡◌, ◌≤◌, refl, ◌∙◌, ap, Bool, true, false, not, List, [], ◌∷◌, ltb, if◌then◌else◌, arith,
  length, keep, Bool-cases, inl, inr, ltb→lt,
}
use networkat_cloud_web_app.Prelude.Text.{text_eq}
use networkat_cloud_web_app.SystemLogs.Entries.{
  Entry, Logs, is_masked, mask, mask_from, limit_or_five, enforce_gating, has_id, add_entry,
  count_up, on_live_entry,
}

-- The entries that can be read.
abbrev pub readable : List Entry → ℕ
readable rs = length (keep (λ r. not (is_masked r)) rs)

mask_from-readable :
    (limit : ℕ) (rs : List Entry) (count : ℕ)
    → count ≤ limit
    → count + readable (mask_from limit count rs) ≤ limit
unfolding mask_from mask text_eq
mask_from-readable limit [] count h = omega arith
mask_from-readable limit (r ∷ rs) count h = elim (Bool-cases (ltb count limit)) [
  | inl room ↦ elim (Bool-cases (is_masked r)) [
    | inl masked ↦ rw (mask_from, room, masked) (mask_from-readable limit rs count h)
    | inr shown ↦
        let later =
          mask_from-readable limit rs (count + 1) (omega (arith, ltb→lt count limit room)) in
        rw (mask_from, room, shown) (omega (arith, later))
  ]
  | inr full ↦ rw (mask_from, full) (mask_from-readable limit rs count h)
]

enforce_gating-readable :
    (s : Logs) → s.is_gated ≡ true → readable (enforce_gating s).rows ≤ limit_or_five s.trial_limit
unfolding enforce_gating
enforce_gating-readable s gated =
    rw (enforce_gating, gated)
      (omega (arith, mask_from-readable (limit_or_five s.trial_limit) s.rows 0 (omega arith)))

add_entry-gated :
    (e : Entry) (s : Logs)
    → ((add_entry e s).is_gated ≡ s.is_gated) × ((add_entry e s).trial_limit ≡ s.trial_limit)
unfolding add_entry
add_entry-gated e s = elim (Bool-cases (has_id e.id s.ids)) [
  | inl seen ↦ rw (add_entry, seen) (refl, refl)
  | inr fresh ↦ rw (add_entry, fresh) (refl, refl)
]

-- On a gated page a new live entry leaves at most as many readable entries as the trial allows, or
-- five if it says none.
pub on_live_entry-readable :
    (away : Bool) (e : Entry) (s : Logs)
    → s.is_gated ≡ true
    → has_id e.id s.ids ≡ false
    → readable (on_live_entry away e s).rows ≤ limit_or_five s.trial_limit
unfolding on_live_entry
on_live_entry-readable away e s gated fresh =
    let (still, same_limit) = add_entry-gated e s in
    let added : Logs = record (add_entry e s) { counts = count_up e.category s.counts } in
    let few = enforce_gating-readable added (still ∙ gated) in
    let fits : readable (enforce_gating added).rows ≤ limit_or_five s.trial_limit =
      omega (arith, few, ap limit_or_five same_limit) in
    go (has_id e.id s.ids) fresh away added fits
  where
    go :
        (seen : Bool)
        → seen ≡ false
        → (away : Bool) (t : Logs) → readable (enforce_gating t).rows ≤ limit_or_five s.trial_limit
        → readable
            (if seen
              then s
              else (if away
                  then record (enforce_gating t) {
                    pending_new = (enforce_gating t).pending_new + 1;
                  }
                  else enforce_gating t)).rows
          ≤ limit_or_five s.trial_limit
    go true e away t h = cc
    go false e true t h = h
    go false e false t h = h

mask_from_idem :
    (limit : ℕ) (rs : List Entry) (count : ℕ)
    → mask_from limit count (mask_from limit count rs) ≡ mask_from limit count rs
unfolding mask_from mask
mask_from_idem limit [] count = refl
mask_from_idem limit (r ∷ rs) count = elim (Bool-cases (ltb count limit)) [
  | inl room ↦
      rw (mask_from, room)
        (ap (λ l. r ∷ l) (mask_from_idem limit rs (if not (is_masked r) then count + 1 else count)))
  | inr full ↦ rw (mask_from, full) (ap (λ l. mask r ∷ l) (mask_from_idem limit rs count))
]

-- Gating a second time changes nothing: what could be read still can.
pub enforce_gating_idem : (s : Logs) → enforce_gating (enforce_gating s) ≡ enforce_gating s
unfolding enforce_gating
enforce_gating_idem s = elim (Bool-cases s.is_gated) [
  | inl gated ↦
      rw (enforce_gating, gated)
        (ap (λ rs. record s { rows = rs; is_gated = true })
          (mask_from_idem (limit_or_five s.trial_limit) s.rows 0))
  | inr free ↦ rw (enforce_gating, free) refl
]
