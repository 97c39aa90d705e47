-- ===== src/Provider.antt =====
-- internal/provider/provider.go: the interface `Service`, `WithLogging`, and the stream of two functions.
pub mod Laws
use claude_oauth_proxy.Base.{ℤ, String, Option, none, some}
use claude_oauth_proxy.Core.{Error, Action}
use claude_oauth_proxy.Openai.{
  ChatCompletionRequest, ChatCompletionResponse, ChatCompletionChunk, ModelsResponse,
}
use claude_oauth_proxy.Anthropic.Stream.{Pulled, eof}
use claude_oauth_proxy.Logging.{Logged, with_provider_operation}

-- `Service` and `Stream` over the state `S`; `C` is a stream that has been opened.
pub record ProviderService (S F C : Type 0) : Type 0 where
  pub list_models : Action S Error ModelsResponse
  pub create_chat_completion : ChatCompletionRequest F → Action S Error (ChatCompletionResponse F)
  pub create_chat_completion_stream : ChatCompletionRequest F → Action S Error C
  pub next : C → S → Pulled F × S
  pub close : C → S → S

abbrev pub unlogged : {S A : Type 0} → (S → A × S) → Logged S → A × Logged S
unlogged run l = let (r, s) = run l.world in (r, record l { world = s })

module _ {S F C : Type 0} (now : S → ℤ) (elapsed_ms : ℤ → ℤ → ℤ) where
  -- `WithLoggingClock` on a service that is there: the calls are logged, the streams are as they were.
  unfoldable pub with_logging : ProviderService S F C → ProviderService (Logged S) F C
  with_logging provider = record {
    list_models = with_provider_operation now elapsed_ms "provider.models" provider.list_models;
    create_chat_completion = λ q.
        with_provider_operation now elapsed_ms "provider.chat" (provider.create_chat_completion q);
    create_chat_completion_stream = λ q.
        with_provider_operation now elapsed_ms "provider.chat_streaming"
          (provider.create_chat_completion_stream q);
    next = λ c. unlogged (provider.next c);
    close = λ c l. record l { world = provider.close c l.world };
  }

-- `chunkStream`; either function may be nil.
pub record ChunkStream (S F : Type 0) : Type 0 where
  pub next : Option (S → Pulled F × S)
  pub close : Option (S → Option String × S)

abbrev close_with : {S : Type 0} → Option (S → Option String × S) → S → Option String × S
close_with none s = (none, s)
close_with (some f) s = f s

module _ {S F : Type 0} where
  -- `(*chunkStream).Next` and `Close`, on a pointer that may be nil.
  abbrev next_with : Option (S → Pulled F × S) → S → Pulled F × S
  next_with none s = (eof, s)
  next_with (some f) s = f s

  unfoldable pub stream_next : Option (ChunkStream S F) → S → Pulled F × S
  stream_next none s = (eof, s)
  stream_next (some c) s = next_with c.next s

  unfoldable pub stream_close : Option (ChunkStream S F) → S → Option String × S
  stream_close none s = (none, s)
  stream_close (some c) s = close_with c.close s
