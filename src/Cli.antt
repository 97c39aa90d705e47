-- ===== src/Cli.antt =====
-- internal/adapters/cli/run.go: the commands.
pub mod Flags
pub mod Code
pub mod Console
pub mod Commands
pub mod Serve
pub mod Run
pub mod Examples
