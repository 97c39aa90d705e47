-- ===== src/Http/Examples/Upstream.antt =====
-- internal/adapters/http/handler.go: the answer to a chat request over a stream of the Anthropic client.
use mathlib.Core.Path.{refl}
use claude_oauth_proxy.Base.{ℕ, pos, ◌≡◌, none, List, [], ◌∷◌, ◌++◌, map, true, arith}
use claude_oauth_proxy.Core.{new_error, err}
use claude_oauth_proxy.Openai.{ChatCompletionChunk}
use claude_oauth_proxy.Anthropic.Stream.{StreamState, opened, next}
use claude_oauth_proxy.Anthropic.Stream.Chunks.{pieces, says, calls, farewell}
use claude_oauth_proxy.Anthropic.Examples.Replies.{events}
use claude_oauth_proxy.Http.{Services, chunk_event, done_event, handle_chat_completions}
use claude_oauth_proxy.Http.Examples.{services_with, cfg, asks, asked, fresh}
use claude_oauth_proxy.Http.Laws.Upstream.{handle_chat_completions-told}

abbrev relaying : Services (StreamState ℕ) ℕ ℕ
relaying =
    services_with (λ s. (err (new_error "" 0 "" none), s)) (next "chatcmpl-7" "claude" (λ n. pos n))

handle_chat_completions-told_example :
    (ks : List (ChatCompletionChunk ℕ)) × ((handle_chat_completions relaying 12 cfg
        (asks "/v1/chat/completions")
        (fresh (opened events none))).body
      ≡ map chunk_event ks ++ done_event ∷ [])
    × (pieces ks
        ≡ says "sunny" ∷ calls "t1" "weather" "" ∷ calls "t1" "weather" "{}" ∷ farewell true ∷ [])
handle_chat_completions-told_example =
    handle_chat_completions-told relaying "chatcmpl-7" "claude" (λ n. pos n) 0 (λ s. s) (λ t s. t)
      (λ t s. refl) (λ s. refl) (λ k. refl) cfg (asks "/v1/chat/completions")
      (fresh (opened events none)) asked (opened events none) events 12 refl refl refl refl
      (omega arith)
