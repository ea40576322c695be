-- ===== src/Ids/CustomRules.antt =====
-- client/static/js/ids_win_custom_rules.js: the window of the customer's own rules.
pub mod Fields
pub mod Conditions
pub mod Checks
pub mod Parts
pub mod Reading
pub mod Reopen
pub mod Given
pub mod Complete
pub mod Form
pub mod Staging
