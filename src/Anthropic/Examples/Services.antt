-- ===== src/Anthropic/Examples/Services.antt =====
-- internal/provider/anthropic/service.go: two streams of one service, read by turns.
use claude_oauth_proxy.Base.{ℕ, pos, none, some, refl, List, [], ◌∷◌, ◌≡◌, String}
use claude_oauth_proxy.Openai.{ChatCompletionChunk}
use claude_oauth_proxy.Anthropic.Stream.{
  StreamState, opened, content_block_delta, text_delta, message_stop, next, pull, handle,
  handle_delta, finish_chunk, end_of,
}
use claude_oauth_proxy.Anthropic.Stream.Drain.{drain, at_eof}
use claude_oauth_proxy.Anthropic.Service.{Reached, OpenedStream, anthropic_service}
use claude_oauth_proxy.Anthropic.Service.Laws.{done, pulls, Hears, chunk, ended, Hears-drain}
use claude_oauth_proxy.Anthropic.Examples.{arith, cfg}
use claude_oauth_proxy.Anthropic.Examples.Replies.{upstream}

abbrev one_text : String → StreamState ℕ
one_text t = opened (content_block_delta (text_delta t) ∷ message_stop ∷ []) none

abbrev two_streams : Reached ℕ ℕ
two_streams = record { turn = pos 2; world = 4; streams = one_text "hi" ∷ one_text "bye" ∷ [] }

abbrev stream : ℕ → OpenedStream
stream n = record { id = "chatcmpl-7"; model = "claude"; number = n }

abbrev chunks : List (ChatCompletionChunk ℕ)
chunks = (drain "chatcmpl-7" "claude" (λ n. pos n) 3 (one_text "hi")).chunks

-- A chunk of the other stream is read before each of this one.
hears :
    Hears upstream 1
      (λ text. some text)
      (λ n. pos n)
      (λ n. n)
      cfg
      (stream 0)
      two_streams
      chunks
      at_eof
unfolding anthropic_service next pull handle handle_delta finish_chunk end_of drain
hears = chunk _ _ _ _ _ (pulls (stream 1) _ _ (λ e. omega (arith, e)) (done _)) refl (
    chunk _ _ _ _ _ (pulls (stream 1) _ _ (λ e. omega (arith, e)) (done _)) refl
      (ended _ _ (done _) refl))

Hears-drain_example :
    drain "chatcmpl-7" "claude" (λ n. pos n) 3 (one_text "hi")
    ≡ record { chunks = chunks; ending = at_eof }
unfolding drain next pull handle handle_delta finish_chunk end_of
Hears-drain_example =
    Hears-drain upstream 1 (λ text. some text) (λ n. pos n) (λ n. n) cfg (stream 0) hears
      (one_text "hi") refl
