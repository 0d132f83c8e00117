-- ===== src/Adapters.antt =====
-- crates/lore-auth-adapters/src: the adapters beside the in-memory store.
pub mod Authz
pub mod Registry
