-- ===== src/NetworkMath.antt =====
-- client/static/js/network_math.js: the IPv4 and DNS name validators that every form uses.
pub mod Ipv4
pub mod Dns
