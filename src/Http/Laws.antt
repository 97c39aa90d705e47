-- ===== src/Http/Laws.antt =====
-- internal/adapters/http/handler.go: what the HTTP surface guarantees.
pub mod Access
pub mod Streaming
pub mod Upstream
pub mod Ready
pub mod Logged
