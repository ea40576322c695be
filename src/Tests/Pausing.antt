-- ===== src/Tests/Pausing.antt =====
-- The window that pauses the logs, at a duration past a week.
use networkat_cloud_web_app.Prelude.{◌≡◌, refl, none, some, true, false}
use networkat_cloud_web_app.SystemLogs.Pause.{
  PauseForm, pause_bounds, pause_minutes, pause_update, fill_fields, clamp_pause,
}

abbrev eight_days : PauseForm
eight_days = record { days = some 8; hours = some 1; minutes = some 30; ok_disabled = true }

one_week :
    clamp_pause none eight_days
    ≡ record { days = some 7; hours = some 0; minutes = some 0; ok_disabled = false }
unfolding clamp_pause pause_bounds pause_minutes pause_update fill_fields
one_week = refl
