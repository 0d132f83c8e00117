-- ===== src/Inbound/Http.antt =====
-- crates/lore-auth-inbound/src/httpserver: the pages and endpoints of the HTTP server. The router, the
-- extraction of a request's parts and the order of the layers are the web framework's.
mod Answers
pub mod Session
pub mod Text
mod Endpoints
unfoldable pub use Answers.*
unfoldable pub use Session.*
unfoldable pub use Text.*
unfoldable pub use Endpoints.*
pub mod Tokens
pub mod Device
pub mod Middleware
pub mod Login
