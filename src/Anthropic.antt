-- ===== src/Anthropic.antt =====
-- internal/provider/anthropic/service.go: the client of the Anthropic Messages API.
mod Types
mod Errors
pub mod Params
pub mod Response
pub mod Stream
pub mod Calls
pub mod Service
pub use Types.*
unfoldable pub use Errors.*
pub mod Examples
