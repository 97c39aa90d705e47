-- ===== src/Logging.antt =====
-- internal/logging/recorder.go and events.go, and the logging decorators of internal/auth/service.go and
-- internal/provider/provider.go.
pub mod Laws
pub mod Recorder
pub mod Json
use claude_oauth_proxy.Base.{
  ℤ, String, Bool, true, false, List, [], ◌∷◌, ◌++◌, is_empty, if◌then◌else◌,
}
use claude_oauth_proxy.Core.{Error, Result, ok, err, panic, Action}

-- A field's value.
pub data Field : Type 0 where
  text : String → Field
  number : ℤ → Field
  flag : Bool → Field

pub record Entry : Type 0 where
  pub level : String
  pub event : String
  pub fields : List (String × Field)

-- What a logged call works on: the state that it reaches, and the log.
pub record Logged (W : Type 0) : Type 0 where
  pub world : W
  pub logs : List Entry

abbrev pub entry : String → String → List (String × Field) → Entry
entry level event fields = record { level = level; event = event; fields = fields }

abbrev pub start_entry : String → Entry
start_entry operation = entry "info" "service.operation.start" (("operation", text operation) ∷ [])

-- The fields of a finished call: its duration, and whether there was no error.
abbrev pub finish_fields : String → ℤ → Bool → List (String × Field)
finish_fields operation duration done =
    ("operation", text operation) ∷ ("duration_ms", number duration) ∷ ("ok", flag done) ∷ []

abbrev pub failed_entry : String → ℤ → Error → Entry
failed_entry operation duration e =
    entry "error" "service.operation.finish"
      (finish_fields operation duration false ++ ("error_code", text e.code) ∷ [])

module _ {W : Type 0} (now : W → ℤ) (elapsed_ms : ℤ → ℤ → ℤ) (operation : String) where
  module _ {A : Type 0} where
    -- `withOperation` of package provider: the last entry. After a panic there is none.
    abbrev pub provider_entries : ℤ → Result Error A → W → List Entry
    provider_entries started (ok a) w =
        entry "info" "service.operation.finish"
          (finish_fields operation (elapsed_ms started (now w)) true)
        ∷ []
    provider_entries started (err e) w = failed_entry operation (elapsed_ms started (now w)) e ∷ []
    provider_entries started panic w = []

    -- `withOperation` of package auth: an error without a code is logged as information.
    abbrev pub auth_entries : ℤ → Result Error A → W → List Entry
    auth_entries started (ok a) w =
        entry "info" "service.operation.finish"
          (finish_fields operation (elapsed_ms started (now w)) true)
        ∷ []
    auth_entries started (err e) w =
        (if is_empty e.code
          then entry "info" "service.operation.finish"
              (finish_fields operation (elapsed_ms started (now w)) false)
          else failed_entry operation (elapsed_ms started (now w)) e)
        ∷ []
    auth_entries started panic w = []

    abbrev pub finished :
        (Result Error A → W → List Entry)
        → List Entry
        → Result Error A × W
        → Result Error A × Logged W
    finished entries logs (r, w) = (r, record { world = w; logs = logs ++ entries r w })

    abbrev pub around :
        (ℤ → Result Error A → W → List Entry) → Action W Error A → Action (Logged W) Error A
    around entries run l =
        finished (entries (now l.world)) (l.logs ++ start_entry operation ∷ []) (run l.world)

    unfoldable pub with_provider_operation : Action W Error A → Action (Logged W) Error A
    with_provider_operation = around provider_entries

    unfoldable pub with_auth_operation : Action W Error A → Action (Logged W) Error A
    with_auth_operation = around auth_entries
