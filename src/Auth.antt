-- ===== src/Auth.antt =====
-- internal/auth/service.go: the login service, PKCE and the Claude OAuth provider.
mod Types
pub mod Pkce
pub mod Provider
pub mod Browser
pub mod Operations
pub mod Interface
pub mod Examples
unfoldable pub use Types.*
