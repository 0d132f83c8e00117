-- ===== src/Model.antt =====
-- crates/lore-auth-core/src/model.rs: the domain data and rules.
mod Roles
mod Ids
mod Entities
pub mod RoundTrips
unfoldable pub use Roles.*
unfoldable pub use Ids.*
unfoldable pub use Entities.*
