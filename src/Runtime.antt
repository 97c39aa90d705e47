-- ===== src/Runtime.antt =====
-- internal/runtime: the configuration, what the program is built of, and the logger's settings.
pub mod ByteSize
pub mod Config
pub mod App
pub mod Services
pub mod Logger
pub mod Examples
