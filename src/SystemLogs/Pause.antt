-- ===== src/SystemLogs/Pause.antt =====
-- client/static/js/system_logs.js, the window that pauses the logs, in its mode "for": days, hours
-- and minutes within the device's bounds. A field that `Number` does not read as a non-negative
-- integer is `none`.
pub mod Clamp
use networkat_cloud_web_app.Prelude.{
  ℕ, ◌+◌, ◌*◌, ◌/◌, ◌%◌, max, Bool, true, false, not, ◌&&◌, Option, none, some, ltb, leb, ◌==◌,
  if◌then◌else◌,
}

pub record PauseForm : Type 0 where
  pub days : Option ℕ
  pub hours : Option ℕ
  pub minutes : Option ℕ
  pub ok_disabled : Bool

-- The bounds in minutes; `none` is a configuration without them.
unfoldable pub pause_bounds : Option (ℕ × ℕ) → ℕ × ℕ
pause_bounds none = (1, 10080)
pause_bounds (some b) = (max 1 b.0, b.1)

abbrev total : Option ℕ → Option ℕ → Option ℕ → Option ℕ
total (some d) (some h) (some m) = some (d * 1440 + h * 60 + m)
total _ _ _ = none

-- `NaN` is `none`.
unfoldable pub pause_minutes : PauseForm → Option ℕ
pause_minutes s = total s.days s.hours s.minutes

-- The button is enabled by a duration within the bounds.
unfoldable pub pause_update : Option (ℕ × ℕ) → PauseForm → PauseForm
pause_update bounds s =
    let (lo, hi) = pause_bounds bounds in
    elim (pause_minutes s) [
      | none ↦ record s { ok_disabled = true }
      | some mins ↦ record s { ok_disabled = not (leb lo mins && leb mins hi) }
    ]

unfoldable pub fill_fields : ℕ → PauseForm → PauseForm
fill_fields mins s = record s {
  days = some (mins / 1440);
  hours = some (mins % 1440 / 60);
  minutes = some (mins % 60);
}

-- `mins < lo ? lo : mins > hi ? hi : mins`
abbrev pub nearest : ℕ × ℕ → ℕ → ℕ
nearest (lo, hi) mins = if ltb mins lo then lo else if ltb hi mins then hi else mins

unfoldable pub clamp_pause : Option (ℕ × ℕ) → PauseForm → PauseForm
clamp_pause bounds s = elim (pause_minutes s) [
  | none ↦ s
  | some mins ↦
      let fix = nearest (pause_bounds bounds) mins in
      pause_update bounds (if fix == mins then s else fill_fields fix s)
]
