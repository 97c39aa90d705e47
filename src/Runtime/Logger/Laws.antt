-- ===== src/Runtime/Logger/Laws.antt =====
-- internal/runtime/logger.go with internal/logging/logger.go: errors are logged, whatever the environment.
use claude_oauth_proxy.Base.{String, ◌≡◌, refl, some, List, [], ◌∷◌, if◌then◌else◌}
use claude_oauth_proxy.Logging.{Field, entry}
use claude_oauth_proxy.Logging.Json.{new_json_logger_with_level, enables_info, log_info, log_error}
use claude_oauth_proxy.Runtime.Logger.{
  select_logger_writer, LoggerSink, stderr, stdout, discard, LoggerOutputs, logger_config_from_env,
  new_logger_from_env_with_outputs,
}

module _ {V : Type 0} (io_discard : V) (getenv : String → String) (out err null : V) where
  -- The writers that the program has.
  abbrev pub outputs : LoggerOutputs V
  outputs = record { stdout = some out; stderr = some err; discard = some null }

  abbrev pub writer_of : LoggerSink → V
  writer_of stderr = err
  writer_of stdout = out
  writer_of discard = null

  writers-agree :
      (sink : LoggerSink) → select_logger_writer io_discard sink outputs ≡ writer_of sink
  unfolding select_logger_writer
  writers-agree stderr = refl
  writers-agree stdout = refl
  writers-agree discard = refl

  -- Whatever the environment says, the logger of the program writes an error to the writer of the
  -- configured sink, at any level, and information too unless the level is warn or error.
  pub new_logger_from_env_with_outputs_lem :
      (event : String) (fields : List (String × Field))
      → let logger = new_logger_from_env_with_outputs io_discard getenv outputs in
        let cfg = logger_config_from_env getenv in
        (log_error event fields (some logger)
          ≡ (writer_of cfg.sink, entry "error" event fields) ∷ [])
        × (log_info event fields (some logger) ≡ (
            if enables_info cfg.level
            then (writer_of cfg.sink, entry "info" event fields) ∷ []
            else []))
  unfolding new_logger_from_env_with_outputs log_error log_info new_json_logger_with_level
  new_logger_from_env_with_outputs_lem event fields =
      rw (← writers-agree (logger_config_from_env getenv).sink) (refl, refl)
