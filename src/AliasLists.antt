-- ===== src/AliasLists.antt =====
-- client/static/js/aliases.js: the page of address list aliases and of the resolver's settings.
pub mod Resolver
pub mod Entry
pub mod Rows
pub mod Requests
pub mod Save
