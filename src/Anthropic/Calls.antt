-- ===== src/Anthropic/Calls.antt =====
-- internal/provider/anthropic/service.go: `ListModels` and `CreateChatCompletion`, which ask for a
-- token, call the SDK, and call it again with a refreshed token when it answers 401.
pub mod Laws
use claude_oauth_proxy.Base.{
  leb_ℤ, pos, none, show_ℤ, ◌⧺◌, Option, ℕ, ℤ, String, Bool, true, false, some, List, [], ◌∷◌, map,
  if◌then◌else◌,
}
use claude_oauth_proxy.Core.{Error, Result, ok, err, panic, Action, pure, proceed, ◌>>=◌}
use claude_oauth_proxy.Openai.{
  ChatCompletionRequest, ChatCompletionResponse, ModelsResponse, ModelInfo,
}
use claude_oauth_proxy.Auth.{AccessTokenOutput}
use claude_oauth_proxy.Anthropic.Types.{Config, MessageNewParams}
use claude_oauth_proxy.Anthropic.Errors.{SdkError, unauthorized, translate_error}
use claude_oauth_proxy.Anthropic.Response.{Message, map_response}
use claude_oauth_proxy.Anthropic.Stream.{StreamState, Event, opened}
use claude_oauth_proxy.Anthropic.Params.{message_params}

-- A model that the SDK lists; `created_at` in seconds.
pub record SdkModel : Type 0 where
  pub id : String
  pub created_at : ℤ
  pub display_name : String

-- The SDK's client, as `NewClient` makes it: its address, its bearer token, the beta header that is
-- added, and the headers that are set.
pub record Client : Type 0 where
  pub base_url : String
  pub auth_token : String
  pub beta : String
  pub headers : List (String × String)

-- `client`, with a token.
unfoldable pub client_of : Config → String → Client
client_of cfg token = record {
  base_url = cfg.base_url;
  auth_token = token;
  beta = cfg.beta_header;
  headers =
      ("User-Agent", cfg.user_agent)
      ∷ ("X-Stainless-Lang", "js")
      ∷ ("X-Stainless-Package-Version", cfg.sdk_version)
      ∷ ("X-Stainless-Runtime", "node")
      ∷ ("X-Stainless-Runtime-Version", cfg.runtime_version)
      ∷ ("X-Stainless-OS", cfg.stainless_os)
      ∷ ("X-Stainless-Arch", cfg.stainless_arch)
      ∷ ("x-app", "cli")
      ∷ [];
}

-- `withRequestTimeout`: the time that a call has, if it is bounded.
unfoldable pub request_timeout : Config → Option ℤ
request_timeout cfg = if leb_ℤ cfg.request_timeout (pos 0) then none else some cfg.request_timeout

-- What the service reaches: the token source, and the calls of the SDK's client, in a given time
-- but for a stream. `now` reads the clock, in nanoseconds and in seconds.
pub record Upstream (W F S : Type 0) : Type 0 where
  pub access_token : Bool → Action W Error AccessTokenOutput
  pub list_models : Client → Option ℤ → Action W SdkError (List SdkModel)
  pub new_message : Client → Option ℤ → MessageNewParams F S → Action W SdkError Message
  pub new_streaming : Client → MessageNewParams F S → W → (List Event × Option SdkError) × W
  pub now : W → ℤ × ℤ

-- What `CreateChatCompletionStream` closes over: the stream's id and model, and its state.
pub record ChunkStream (F : Type 0) : Type 0 where
  pub id : String
  pub model : String
  pub state : StreamState F

-- The service's own state is the turn counter, beside what it reaches.
abbrev pub beside : {W E A : Type 0} → ℤ → Result E A × W → Result E A × (ℤ × W)
beside turn (r, w) = (r, (turn, w))

abbrev pub reach : {W E A : Type 0} → Action W E A → Action (ℤ × W) E A
reach m (turn, w) = beside turn (m w)

abbrev pub count_turn : {W E A : Type 0} → Action ℤ E A → Action (ℤ × W) E A
count_turn m (turn, w) = let (r, turn') = m turn in (r, (turn', w))

module _ {W F S : Type 0} (up : Upstream W F S) where
  module _ {A : Type 0} (message : String) (call : String → Action W SdkError A) where
    abbrev pub translated : Result SdkError A × W → Result Error A × W
    translated (ok a, w) = (ok a, w)
    translated (err e, w) = (err (translate_error message e), w)
    translated (panic, w) = (panic, w)

    -- The second call, with what the token source gives when it is made to refresh.
    abbrev pub recalled : Result Error AccessTokenOutput × W → Result Error A × W
    recalled (ok t, w) = translated (call t.token w)
    recalled (err e, w) = (err e, w)
    recalled (panic, w) = (panic, w)

    abbrev pub settled : Result SdkError A × W → Result Error A × W
    settled (ok a, w) = (ok a, w)
    settled (panic, w) = (panic, w)
    settled (err e, w) =
        if unauthorized e
        then recalled (up.access_token true w)
        else (err (translate_error message e), w)

    -- The call with a first token, and again after 401.
    unfoldable pub call_twice : String → Action W Error A
    call_twice token w = settled (call token w)

  abbrev model_info : SdkModel → ModelInfo
  model_info m = record {
    id = m.id;
    object = "model";
    created = m.created_at;
    owned_by = "anthropic";
    name = m.display_name;
  }

  -- `fetchModels`
  abbrev models_response : List SdkModel → ModelsResponse
  models_response models = record { object = "list"; models = map model_info models }

  unfoldable pub list_models : Config → Action W Error ModelsResponse
  unfolding call_twice
  list_models cfg = do
    t ← up.access_token false
    models ←
        call_twice "list anthropic models"
          (λ token. up.list_models (client_of cfg token) (request_timeout cfg)) t.token
    pure (models_response models)

  abbrev dated : String → Message → W → ChatCompletionResponse F
  dated model m w = let (nanos, seconds) = up.now w in map_response model (some m) nanos seconds

  -- `CreateChatCompletion`: the token is asked for before the request is looked at.
  unfoldable pub create_chat_completion :
      (one : F) (parse_schema : String → Option S)
      → Config
      → ChatCompletionRequest F
      → Action (ℤ × W) Error (ChatCompletionResponse F)
  unfolding call_twice
  create_chat_completion one parse_schema cfg request = do
    t ← reach (up.access_token false)
    params ← count_turn (message_params one parse_schema cfg request)
    m ← reach (
        call_twice "create anthropic message"
          (λ token. up.new_message (client_of cfg token) (request_timeout cfg) params) t.token)
    reach (λ w. (ok (dated request.model m w), w))

  abbrev streamed : String → ℤ → List Event → Option SdkError → ChunkStream F
  streamed model nanos events failure = record {
    id = "chatcmpl-" ⧺ show_ℤ nanos;
    model = model;
    state = opened events failure;
  }

  -- `CreateChatCompletionStream`: a stream's 401 comes with its events and is not tried again.
  unfoldable pub create_chat_completion_stream :
      (one : F) (parse_schema : String → Option S)
      → Config
      → ChatCompletionRequest F
      → Action (ℤ × W) Error (ChunkStream F)
  create_chat_completion_stream one parse_schema cfg request = do
    t ← reach (up.access_token false)
    params ← count_turn (message_params one parse_schema cfg request)
    reach (λ w.
        let ((events, failure), w') = up.new_streaming (client_of cfg t.token) params w in
        (ok (streamed request.model (up.now w').0 events failure), w'))
