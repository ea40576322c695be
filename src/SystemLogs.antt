-- ===== src/SystemLogs.antt =====
-- client/static/js/system_logs.js: the system logs page.
pub mod Entries
pub mod Stream
pub mod Pause
