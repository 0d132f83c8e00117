-- ===== src/Service.antt =====
-- crates/lore-auth-core/src/service: the application services, over the ports that they call.
pub mod Ports
pub mod Token
pub mod Permission
pub mod Resource
pub mod Device
pub mod Login
pub mod Wiring
