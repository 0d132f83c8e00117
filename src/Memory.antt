-- ===== src/Memory.antt =====
-- crates/lore-auth-adapters/src/memory: the in-memory store that implements the ports.
pub mod State
pub mod Helpers
pub mod Nesting
pub mod Groups
pub mod Grants
pub mod Resources
pub mod Devices
pub mod Sessions
pub mod Tokens
pub mod Accounts
pub mod Audited
