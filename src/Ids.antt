-- ===== src/Ids.antt =====
-- client/static/js/ids_common.js: what the windows of the intrusion detection share; and
-- client/static/js/ids_win_networks.js and client/static/js/ids_win_custom_rules.js, two of the
-- windows.
pub mod Escape
pub mod Cache
pub mod Networks
pub mod CustomRules
