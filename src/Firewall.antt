-- ===== src/Firewall.antt =====
-- client/static/js/firewall.js: the firewall page's validators, rule order and rule form.
pub mod Ports
pub mod Addresses
pub mod Order
pub mod RuleForm
pub mod AliasEntry
pub mod Bulk
