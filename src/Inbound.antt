-- ===== src/Inbound.antt =====
-- crates/lore-auth-inbound: what stands between a caller and the services.
pub mod Reply
pub mod RateLimit
pub mod Status
pub mod Peer
pub mod Auth
pub mod Rebac
pub mod Http
pub mod Admin
