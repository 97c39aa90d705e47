-- ===== src/Logging/Json.antt =====
-- internal/logging/logger.go: which entries a logger writes, and where.
use claude_oauth_proxy.Base.{
  String, Bool, true, false, Option, none, some, List, [], ◌∷◌, if◌then◌else◌,
}
use claude_oauth_proxy.Logging.{Field, Entry, entry}

-- slog's levels.
pub data Level : Type 0 where
  debug info warn error : Level

-- Whether a logger of a level is enabled for "info"; for "error" each is.
abbrev pub enables_info : Level → Bool
enables_info debug = true
enables_info info = true
enables_info warn = false
enables_info error = false

-- `slogLogger`: the writer and the level of its base, which may be nil.
pub record SlogLogger (V : Type 0) : Type 0 where
  pub base : Option (V × Level)

module _ {V : Type 0} (io_discard : V) where
  unfoldable pub new_json_logger_with_level : Option V → Level → SlogLogger V
  new_json_logger_with_level none level = record { base = some (io_discard, level) }
  new_json_logger_with_level (some out) level = record { base = some (out, level) }

  unfoldable pub new_discard_logger : SlogLogger V
  unfolding new_json_logger_with_level
  new_discard_logger = new_json_logger_with_level (some io_discard) info

  unfoldable pub normalize : Option (SlogLogger V) → SlogLogger V
  unfolding new_discard_logger
  normalize none = new_discard_logger
  normalize (some logger) = logger

module _ {V : Type 0} (event : String) (fields : List (String × Field)) where
  abbrev write_info : Option (V × Level) → List (V × Entry)
  write_info none = []
  write_info (some (out, level)) =
      if enables_info level then (out, entry "info" event fields) ∷ [] else []

  abbrev write_error : Option (V × Level) → List (V × Entry)
  write_error none = []
  write_error (some (out, level)) = (out, entry "error" event fields) ∷ []

  -- `Info` and `Error`, on a pointer that may be nil: what is written to which writer.
  unfoldable pub log_info : Option (SlogLogger V) → List (V × Entry)
  log_info none = []
  log_info (some logger) = write_info logger.base

  unfoldable pub log_error : Option (SlogLogger V) → List (V × Entry)
  log_error none = []
  log_error (some logger) = write_error logger.base
