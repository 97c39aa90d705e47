-- ===== src/Http/Types.antt =====
-- internal/adapters/http/handler.go: requests, the response writer, and what a handler reaches.
use claude_oauth_proxy.Base.{
  ℕ, ℤ, pos, String, Bool, Option, none, some, List, [], ◌∷◌, ◌++◌, Dict, get, put, leb_ℤ,
  if◌then◌else◌,
}
use claude_oauth_proxy.Core.{Error, Result, Action}
use claude_oauth_proxy.Openai.{
  ChatCompletionRequest, ChatCompletionResponse, ChatCompletionChunk, ModelsResponse, ErrorPayload,
}
use claude_oauth_proxy.Auth.{StatusOutput}
use claude_oauth_proxy.Anthropic.Stream.{Pulled}
pub use claude_oauth_proxy.Logging.{Field, text, number, Entry}

-- A request, with its path, of characters that a URL has unescaped, without a query, one value for a header, and the request's identifier in its context.
pub record Request : Type 0 where
  pub method : String
  pub path : String
  pub headers : Dict String
  pub body : String
  pub request_id : String

-- `r.Header.Get`
abbrev pub header : String → Request → String
header key r = elim (get key r.headers) [ none ↦ "" | some v ↦ v ]

-- What is written to a body: a text, a JSON value, or a server-sent event.
pub data Payload (F : Type 0) : Type 0 where
  text_body : String → Payload F
  status_body : String → Payload F
  models_body : ModelsResponse → Payload F
  completion_body : ChatCompletionResponse F → Payload F
  error_body : ErrorPayload → Payload F
  chunk_event : ChatCompletionChunk F → Payload F
  done_event : Payload F

-- The state `S` that the services reach, the response as it has been written (`status` is that of the
-- first `WriteHeader`), the status that the logging writer has captured, and the log. A handler
-- that panics has `crashed`.
pub record Exchange (S F : Type 0) : Type 0 where
  pub state : S
  pub headers : Dict (List String)
  pub status : Option ℕ
  pub body : List (Payload F)
  pub captured : ℕ
  pub logs : List Entry
  pub crashed : Bool

abbrev pub HandlerFunc : Type 0 → Type 0 → Type 0
HandlerFunc S F = Request → Exchange S F → Exchange S F

-- The two services over the state `S`; `C` is a stream that the provider has opened. `decode` reads
-- a request from at most so many bytes, `marshal` says whether a chunk can be encoded, `cost_text` is
-- "%.6f", and `generate_id` is `generateRequestID`.
pub record Services (S F C : Type 0) : Type 0 where
  pub status : Action S Error StatusOutput
  pub list_models : Action S Error ModelsResponse
  pub create_chat_completion : ChatCompletionRequest F → Action S Error (ChatCompletionResponse F)
  pub create_chat_completion_stream : ChatCompletionRequest F → Action S Error C
  pub next : C → S → Pulled F × S
  pub close : C → S → S
  pub decode : ℤ → String → Result String (ChatCompletionRequest F)
  pub marshal : ChatCompletionChunk F → Option String
  pub cost_text : F → String
  pub now : S → ℤ
  pub elapsed_ms : ℤ → ℤ → ℤ
  pub generate_id : S → String × S

pub record HandlerConfig : Type 0 where
  pub api_key : String
  pub cors_origins : List String
  pub max_request_body : ℤ

-- The limit of `NewHandler`.
abbrev pub limit_of : ℤ → ℤ
limit_of n = if leb_ℤ n (pos 0) then pos 10485760 else n

module _ {S F : Type 0} where
  -- `Header().Set` and `Header().Add`, before the status is written.
  abbrev pub set_header : String → String → Exchange S F → Exchange S F
  set_header key value x = record x { headers = put key (value ∷ []) x.headers }

  abbrev pub values : String → Exchange S F → List String
  values key x = elim (get key x.headers) [ none ↦ [] | some vs ↦ vs ]

  abbrev pub add_header : String → String → Exchange S F → Exchange S F
  add_header key value x = record x { headers = put key (values key x ++ value ∷ []) x.headers }

  -- `WriteHeader`; the first status stays, the capturing writer keeps the last.
  abbrev pub write_header : ℕ → Exchange S F → Exchange S F
  write_header status x = record x {
    status = elim x.status [ none ↦ some status | some old ↦ some old ];
    captured = status;
  }

  abbrev pub write : Payload F → Exchange S F → Exchange S F
  write payload x = record x { body = x.body ++ payload ∷ [] }

  abbrev pub log : String → String → List (String × Field) → Exchange S F → Exchange S F
  log level event fields x = record x {
    logs = x.logs ++ record { level = level; event = event; fields = fields } ∷ [];
  }

  abbrev pub write_json : ℕ → Payload F → Exchange S F → Exchange S F
  write_json status payload x =
      write payload (write_header status (set_header "Content-Type" "application/json" x))
