-- ===== src/Proxy.antt =====
-- proxy/: the RTSP proxy, one module for each of its parts but its users and rules, which are in Auth.
pub mod Logger
pub mod Media
pub mod Health
pub mod Relay
pub mod Config
