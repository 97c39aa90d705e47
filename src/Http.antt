-- ===== src/Http.antt =====
-- internal/adapters/http/handler.go: the HTTP surface.
mod Types
mod Handlers
pub mod CleanPath
mod Middleware
pub mod RequestId
pub mod Handler
pub mod Laws
pub mod Examples
pub use Types.*
unfoldable pub use Handlers.*
unfoldable pub use Middleware.*
