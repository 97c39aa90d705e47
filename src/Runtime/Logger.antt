-- ===== src/Runtime/Logger.antt =====
-- internal/runtime/logger.go: the logger's level and where it writes.
pub mod Laws
use claude_oauth_proxy.Base.{String, Option, none, some, lowers_to, trim_space, if◌then◌else◌}
use claude_oauth_proxy.Logging.Json.{
  Level, debug, info, warn, error, SlogLogger, new_json_logger_with_level,
}

pub data LoggerSink : Type 0 where
  stderr stdout discard : LoggerSink

pub record LoggerConfig : Type 0 where
  pub level : Level
  pub sink : LoggerSink

unfoldable pub parse_logger_level : String → Level
parse_logger_level raw =
    let word = trim_space raw in
    if lowers_to word "debug"
    then debug
    else if lowers_to word "warn"
    then warn
    else if lowers_to word "error"
    then error
    else info

unfoldable pub parse_logger_sink : String → LoggerSink
parse_logger_sink raw =
    let word = trim_space raw in
    if lowers_to word "stdout" then stdout else if lowers_to word "discard" then discard else stderr

unfoldable pub logger_config_from_env : (String → String) → LoggerConfig
unfolding parse_logger_level parse_logger_sink
logger_config_from_env getenv = record {
  level = parse_logger_level (getenv "CLAUDE_OAUTH_PROXY_LOG_LEVEL");
  sink = parse_logger_sink (getenv "CLAUDE_OAUTH_PROXY_LOG_SINK");
}

-- The writers that there are; each may be nil.
pub record LoggerOutputs (V : Type 0) : Type 0 where
  pub stdout : Option V
  pub stderr : Option V
  pub discard : Option V

module _ {V : Type 0} (io_discard : V) where
  abbrev pub fallback : LoggerOutputs V → V
  fallback outputs = elim outputs.stderr [
    | some w ↦ w
    | none ↦ elim outputs.stdout [ some w ↦ w | none ↦ io_discard ]
  ]

  abbrev pub or_fallback : Option V → LoggerOutputs V → V
  or_fallback (some w) outputs = w
  or_fallback none outputs = fallback outputs

  unfoldable pub select_logger_writer : LoggerSink → LoggerOutputs V → V
  select_logger_writer stdout outputs = or_fallback outputs.stdout outputs
  select_logger_writer discard outputs = or_fallback outputs.discard outputs
  select_logger_writer stderr outputs = fallback outputs

  -- `newLoggerFromEnvWithOutputs`
  unfoldable pub new_logger_from_env_with_outputs :
      (String → String) → LoggerOutputs V → SlogLogger V
  unfolding logger_config_from_env select_logger_writer
  new_logger_from_env_with_outputs getenv outputs =
      let cfg = logger_config_from_env getenv in
      new_json_logger_with_level io_discard (some (select_logger_writer cfg.sink outputs)) cfg.level
