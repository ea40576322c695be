-- ===== src/Ids/Networks.antt =====
-- client/static/js/ids_win_networks.js: the window of the networks, servers and ports that the
-- detection knows. Changes are staged in the window and sent in one request.
pub mod Fields
pub mod Ports
pub mod Staging
pub mod Save
