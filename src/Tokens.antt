-- ===== src/Tokens.antt =====
-- internal/tokens/store.go: the token set, the file store and the fallback store.
-- An instant is the number of nanoseconds since Go's zero time (year 1), which is `pos 0`.
mod Types
mod Codec
mod Contract
pub mod FileStore
pub mod Fallback
pub mod Examples
unfoldable pub use Types.*
unfoldable pub use Codec.*
unfoldable pub use Contract.*
