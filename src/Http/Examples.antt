-- ===== src/Http/Examples.antt =====
-- internal/adapters/http/handler.go: requests to the surface over concrete services.
pub mod Upstream
use mathlib.Core.Path.{refl}
use claude_oauth_proxy.Http.CleanPath.{html_escape, clean_path}
use claude_oauth_proxy.Http.RequestId.{generate_request_id, encode_to_string}
use claude_oauth_proxy.Base.{hex_from}
use claude_oauth_proxy.Base.{
  remove, put, get, ℕ, pos, zero, suc, leb, ◌≡◌, String, true, false, none, some, List, [], ◌∷◌,
  ◌++◌, if◌then◌else◌, trim_space, is_blank,
}
use claude_oauth_proxy.Core.{Error, new_error, ok, err, Action}
use claude_oauth_proxy.Tokens.{expired, decode_token_set, encode_token_set, missing, TokenSet}
use claude_oauth_proxy.Tokens.FileStore.{save, load, file_store, Disk}
use claude_oauth_proxy.Tokens.Examples.{read_time, write_time, saved_disk}
use claude_oauth_proxy.Auth.{StatusOutput}
use claude_oauth_proxy.Auth.Operations.{status, access_token, token_output}
use claude_oauth_proxy.Auth.Examples.{service}
use claude_oauth_proxy.Openai.{ChatCompletionRequest, ChatCompletionChunk}
use claude_oauth_proxy.Anthropic.Stream.{Pulled, got, eof}
use claude_oauth_proxy.Http.{
  text_body, has_prefix, answer_models, handle_models, Request, chunk_event, done_event, Field,
  text, number, Entry, Exchange, Services, HandlerConfig, handle_ready, handle_chat_completions,
  serve, mux, route, redirect_to, redirect, with_request_logging,
}
use claude_oauth_proxy.Http.Laws.Access.{serve_unauthorized}
use claude_oauth_proxy.Http.Laws.Streaming.{ends, more, handle_chat_completions-Plays}
use claude_oauth_proxy.Http.Laws.Ready.{handle_ready-access_token}
use claude_oauth_proxy.Http.Laws.Logged.{with_request_logging-IsAnswered}

abbrev chunk : ChatCompletionChunk ℕ
chunk = record {
  id = "chatcmpl-7";
  object = "chat.completion.chunk";
  created = pos 0;
  model = "claude";
  choices = [];
  usage = none;
}

abbrev pub asked : ChatCompletionRequest ℕ
asked = record {
  model = "claude";
  messages = [];
  max_tokens = pos 0;
  temperature = none;
  top_p = none;
  stop = [];
  stream = true;
  user = "";
  tools = [];
  reasoning_effort = "";
}

-- Services that do nothing with their state but for a stream and the status.
abbrev pub services_with :
    {S : Type 0} → Action S Error StatusOutput → (S → Pulled ℕ × S) → Services S ℕ ℕ
services_with status next = record {
  status = status;
  list_models = λ s. (ok (record { object = "list"; models = [] }), s);
  create_chat_completion = λ q s. (err (new_error "UPSTREAM_ERROR" 502 "" none), s);
  create_chat_completion_stream = λ q s. (ok 0, s);
  next = λ c s. next s;
  close = λ c s. s;
  decode = λ n body. ok asked;
  marshal = λ k. none;
  cost_text = λ c. "";
  now = λ s. pos 0;
  elapsed_ms = λ a b. pos 0;
  generate_id = λ s. ("id-1", s);
}

-- A stream with so many chunks left.
abbrev countdown : ℕ → Pulled ℕ × ℕ
countdown zero = (eof, zero)
countdown (suc n) = (got chunk, n)

abbrev pub counting : Services ℕ ℕ ℕ
counting = services_with (λ s. (err (new_error "" 0 "" none), s)) countdown

abbrev pub cfg : HandlerConfig
cfg = record {
  api_key = "secret";
  cors_origins = "https://app.example" ∷ [];
  max_request_body = pos 0;
}

abbrev pub asks : String → Request
asks path = record {
  method = "POST";
  path = path;
  headers = ("Authorization", "Bearer guess") ∷ ("Origin", "https://app.example") ∷ [];
  body = "{}";
  request_id = "";
}

abbrev pub fresh : {S : Type 0} → S → Exchange S ℕ
fresh s = record {
  state = s;
  headers = [];
  status = none;
  body = [];
  captured = 0;
  logs = [];
  crashed = false;
}

serve_unauthorized_example :
    ((serve counting cfg 5 (asks "/v1/chat/completions") (fresh 2)).state ≡ 2)
    × ((serve counting cfg 5 (asks "/v1/chat/completions") (fresh 2)).status ≡ some 401)
unfolding trim_space is_blank get has_prefix clean_path
serve_unauthorized_example =
    serve_unauthorized counting cfg 5 (asks "/v1/chat/completions") (fresh 2) refl refl refl

handle_chat_completions-Plays_example :
    ((handle_chat_completions counting 3 cfg (asks "/v1/chat/completions") (fresh 2)).body
      ≡ chunk_event chunk ∷ chunk_event chunk ∷ done_event ∷ [])
    × ((handle_chat_completions counting 3 cfg (asks "/v1/chat/completions") (fresh 2)).state ≡ 0)
handle_chat_completions-Plays_example =
    handle_chat_completions-Plays counting cfg (asks "/v1/chat/completions") (fresh 2) asked 0 2 0
      (chunk ∷ chunk ∷ []) none 3 refl refl refl
      (more chunk (chunk ∷ []) none 2 1 0 refl refl
        (more chunk [] none 1 0 0 refl refl (ends 0 0 refl)))
      refl

-- The proxy of the saved session.
abbrev proxy : Services Disk ℕ ℕ
proxy = services_with (status service) (λ d. (eof, d))

handle_ready-access_token_example :
    (t : TokenSet) × (service.store.load saved_disk ≡ ok t)
    × (access_token service false saved_disk ≡ (ok (token_output service t), saved_disk))
unfolding handle_ready status file_store load save missing get put remove encode_token_set
    decode_token_set write_time read_time expired
handle_ready-access_token_example =
    handle_ready-access_token proxy service (asks "/readyz") (fresh saved_disk) refl refl refl

with_request_logging-IsAnswered_example :
    (status : ℕ) × (earlier : List Entry) × (fields : List (String × Field))
    × ((with_request_logging counting (mux counting cfg 5) (asks "/v1/models") (fresh 2)).status
        ≡ some status)
    × ((with_request_logging counting (mux counting cfg 5) (asks "/v1/models") (fresh 2)).logs
        ≡ earlier
          ++ record {
            level = if leb 400 status then "error" else "info";
            event = "http.request.finish";
            fields =
                ("method", text "POST")
                ∷ ("path", text "/v1/models")
                ∷ ("status_code", number (pos status))
                ∷ fields;
          }
            ∷ [])
unfolding mux route redirect_to clean_path handle_models answer_models
with_request_logging-IsAnswered_example =
    with_request_logging-IsAnswered counting cfg 5 (asks "/v1/models") (fresh 2) refl refl

-- Bytes at the edges.
generate_request_id_runs :
    generate_request_id (λ n s. (some (0 ∷ 10 ∷ 171 ∷ 255 ∷ []), suc s)) 3 ≡ ("000aabff", 4)
unfolding generate_request_id encode_to_string hex_from
generate_request_id_runs = refl

clean_path_runs : clean_path "//v1/./a/../chat//" ≡ "/v1/chat/"
unfolding clean_path
clean_path_runs = refl

-- The path above all "/v1/" is moved below it.
redirect_runs :
    (mux counting cfg 5 (record (asks "/v1") { method = "GET" }) (fresh 2)).body
    ≡ text_body "<a href=\"/v1/\">Moved Permanently</a>.\n\n" ∷ []
unfolding mux redirect_to clean_path redirect html_escape get
redirect_runs = refl
