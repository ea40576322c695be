-- ===== src/SystemLogs/Pause/Clamp.antt =====
-- On leaving a field: the duration within the bounds.
use networkat_cloud_web_app.Prelude.{
  ℕ, ◌+◌, ◌*◌, ◌/◌, ◌%◌, ◌≡◌, ◌≤◌, sym, ◌∙◌, ap, max, min, false, Option, some, ◌==◌, if◌then◌else◌,
  ==_iff, arith, Option-cases, Bool-cases, inl, inr,
}
use networkat_cloud_web_app.SystemLogs.Pause.{
  PauseForm, pause_bounds, pause_minutes, pause_update, fill_fields, nearest, clamp_pause,
}

-- The fields that are filled in read back as the number of minutes.
pause_minutes-fill_fields :
    (mins : ℕ) (s : PauseForm) → pause_minutes (fill_fields mins s) ≡ some mins
unfolding pause_minutes fill_fields
pause_minutes-fill_fields mins s =
    let whole : mins / 1440 * 1440 + mins % 1440 / 60 * 60 + mins % 60 ≡ mins = omega arith in
    ap some whole

pause_update-kept :
    (bounds : Option (ℕ × ℕ)) (s : PauseForm)
    → pause_minutes (pause_update bounds s) ≡ pause_minutes s
unfolding pause_update pause_minutes
pause_update-kept bounds s = elim (Option-cases (pause_minutes s)) [
  | inl bad ↦ rw (pause_update, bad) bad
  | inr (mins, e) ↦ rw (pause_update, e) e
]

pause_update-enabled :
    (bounds : Option (ℕ × ℕ)) (s : PauseForm) (mins : ℕ)
    → pause_minutes s ≡ some mins
    → (pause_bounds bounds).0 ≤ mins
    → mins ≤ (pause_bounds bounds).1
    → (pause_update bounds s).ok_disabled ≡ false
unfolding pause_update
pause_update-enabled bounds s mins e above below =
    rw (pause_update, e) (ground (arith, above, below))

nearest_lem : (b : ℕ × ℕ) (mins : ℕ) → b.0 ≤ b.1 → nearest b mins ≡ min (max mins b.0) b.1
nearest_lem (lo, hi) mins ordered = ground (arith, ordered)

shown :
    (fix mins : ℕ) (s : PauseForm)
    → pause_minutes s ≡ some mins
    → pause_minutes (if fix == mins then s else fill_fields fix s) ≡ some fix
shown fix mins s e = elim (Bool-cases (fix == mins)) [
  | inl same ↦ rw same (e ∙ ap some (sym ((==_iff fix mins).0 same)))
  | inr other ↦ rw other (pause_minutes-fill_fields fix s)
]

-- With bounds in order, leaving a field whose window shows a duration leaves it at the nearest
-- duration within the bounds, and the button enabled.
pub clamp_pause-minutes :
    (bounds : Option (ℕ × ℕ)) (s : PauseForm) (mins : ℕ)
    → (pause_bounds bounds).0 ≤ (pause_bounds bounds).1
    → pause_minutes s ≡ some mins
    → (pause_minutes (clamp_pause bounds s)
        ≡ some (min (max mins (pause_bounds bounds).0) (pause_bounds bounds).1))
      × ((clamp_pause bounds s).ok_disabled ≡ false)
unfolding clamp_pause
clamp_pause-minutes bounds s mins ordered e =
    let fix = nearest (pause_bounds bounds) mins in
    let is_fix = nearest_lem (pause_bounds bounds) mins ordered in
    let filled = if fix == mins then s else fill_fields fix s in
    let e' = shown fix mins s e in
    rw (clamp_pause, e)
      (
        pause_update-kept bounds filled ∙ e' ∙ ap some is_fix,
        pause_update-enabled bounds filled fix e' (omega (arith, is_fix, ordered))
            (omega (arith, is_fix, ordered)),
      )
