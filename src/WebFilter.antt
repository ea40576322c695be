-- ===== src/WebFilter.antt =====
-- client/static/js/web_filter.js: the page of the web filter's rules and domain aliases.
pub mod References
pub mod RuleForm
pub mod AliasForm
