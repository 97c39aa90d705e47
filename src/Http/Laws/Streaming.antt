-- ===== src/Http/Laws/Streaming.antt =====
-- internal/adapters/http/handler.go: what is sent of a stream.
use mathlib.Core.Path.{refl, ap, sym, ◌∙◌}
use claude_oauth_proxy.Base.{
  if_true, ℕ, zero, suc, ◌≡◌, true, Option, none, some, List, [], ◌∷◌, ◌++◌, map, length, ltb,
  arith, append_assoc, append-nil,
}
use claude_oauth_proxy.Core.{Error, ok}
use claude_oauth_proxy.Openai.{ChatCompletionRequest, ChatCompletionChunk}
use claude_oauth_proxy.Anthropic.Stream.{got, eof, failed}
use claude_oauth_proxy.Http.{
  Request, Payload, chunk_event, done_event, Exchange, Services, send_chunks, stream_headers,
  answer_stream, answer_request, handle_chat_completions, HandlerConfig, limit_of, at, write,
}

module _ {S F C : Type 0} (sv : Services S F C) where
  -- From a state, a stream gives chunks and then ends, with an error or at its end of file.
  pub data Plays (c : C) : S → List (ChatCompletionChunk F) → Option Error → S → Type 0 where
    ends : (s s' : S) → sv.next c s ≡ (eof, s') → Plays c s [] none s'
    fails : (e : Error) (s s' : S) → sv.next c s ≡ (failed e, s') → Plays c s [] (some e) s'
    more :
        (k : ChatCompletionChunk F) (ks : List (ChatCompletionChunk F)) (end : Option Error)
        (s s' s'' : S)
        → sv.next c s ≡ (got k, s')
        → sv.marshal k ≡ none
        → Plays c s' ks end s''
        → Plays c s (k ∷ ks) end s''

  -- After the last chunk: the end mark, or nothing after an error.
  abbrev pub closing : Option Error → List (Payload F)
  closing none = done_event ∷ []
  closing (some e) = []

  send_chunks-Plays :
      (c : C) (s s' : S) (ks : List (ChatCompletionChunk F)) (end : Option Error) (fuel : ℕ)
      (x : Exchange S F)
      → Plays c s ks end s'
      → x.state ≡ s
      → ltb (length ks) fuel ≡ true
      → ((send_chunks sv fuel c x).body ≡ x.body ++ (map chunk_event ks ++ closing end))
        × ((send_chunks sv fuel c x).state ≡ s')
  unfolding send_chunks
  send_chunks-Plays c s s' _ _ zero x p at_s enough = absurd (ground arith)
  send_chunks-Plays c _ _ _ _ (suc fuel) x (ends s s' n) at_s enough =
      rw (at_s, n, send_chunks) (refl, rw (at_s, n))
  send_chunks-Plays c _ _ _ _ (suc fuel) x (fails e s s' n) at_s enough =
      rw (at_s, n, send_chunks) (sym (append-nil x.body), rw (at_s, n))
  send_chunks-Plays c _ _ _ _ (suc fuel) x (more k ks end s s' s'' n m p) at_s enough =
      let rest =
        send_chunks-Plays c s' s'' ks end fuel (write (chunk_event k) (at s' x)) p refl
          (ground arith) in
      rw (at_s, n, send_chunks, m)
        (
          rw (at_s, n)
              (rest.0
                ∙ append_assoc x.body (chunk_event k ∷ []) (map chunk_event ks ++ closing end)),
          rw (at_s, n) rest.1,
        )

  answer_asked :
      (q : ChatCompletionRequest F) (fuel : ℕ) (x : Exchange S F)
      → q.stream ≡ true
      → answer_request sv fuel (ok q) x
        ≡ answer_stream sv fuel (sv.create_chat_completion_stream q x.state) x
  unfolding answer_request
  answer_asked q fuel x h = if_true q.stream _ _ h

  -- When a chat request asks for a stream, and the stream that the provider opens gives some chunks
  -- (each of which can be encoded) and then ends, a loop of more rounds than there are chunks sends
  -- one event for each of them, in order, then the end mark if the stream did not fail and nothing
  -- if it did, and closes the stream.
  pub handle_chat_completions-Plays :
      (cfg : HandlerConfig) (r : Request) (x : Exchange S F) (q : ChatCompletionRequest F) (c : C)
      (s s' : S) (ks : List (ChatCompletionChunk F)) (end : Option Error) (fuel : ℕ)
      → sv.decode (limit_of cfg.max_request_body) r.body ≡ ok q
      → q.stream ≡ true
      → sv.create_chat_completion_stream q x.state ≡ (ok c, s)
      → Plays c s ks end s'
      → ltb (length ks) fuel ≡ true
      → ((handle_chat_completions sv fuel cfg r x).body
          ≡ x.body ++ (map chunk_event ks ++ closing end))
        × ((handle_chat_completions sv fuel cfg r x).state ≡ sv.close c s')
  unfolding handle_chat_completions answer_stream
  handle_chat_completions-Plays cfg r x q c s s' ks end fuel decoded asked opened plays enough =
      let sent =
        send_chunks-Plays c s s' ks end fuel (stream_headers sv (at s x)) plays refl enough in
      rw (decoded, answer_asked q fuel x asked, opened) (sent.0, ap (sv.close c) sent.1)
