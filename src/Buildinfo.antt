-- ===== src/Buildinfo.antt =====
-- internal/buildinfo/buildinfo.go: the version of the program.
use claude_oauth_proxy.Base.{String, ◌⧺◌, is_empty, if◌then◌else◌}

-- The variables that the linker sets.
pub record BuildInfo : Type 0 where
  pub version : String
  pub commit_short : String
  pub built_at : String

abbrev pub development : BuildInfo
development = record { version = "dev"; commit_short = "unknown"; built_at = "unknown" }

unfoldable pub banner : BuildInfo → String → String
banner b binary_name =
    (if is_empty binary_name then "claude-oauth-proxy" else binary_name)
    ⧺ " "
    ⧺ b.version
    ⧺ " ("
    ⧺ b.commit_short
    ⧺ ", "
    ⧺ b.built_at
    ⧺ ")"
