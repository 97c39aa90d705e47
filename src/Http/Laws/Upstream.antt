-- ===== src/Http/Laws/Upstream.antt =====
-- internal/adapters/http/handler.go with internal/provider/anthropic/service.go: what is sent of the
-- Anthropic client's stream.
use mathlib.Core.Path.{refl}
use claude_oauth_proxy.Base.{
  sym, [], List, arith, length, ltb, ◌+◌, ◌<◌, ◌≤◌, ◌∷◌, ◌++◌, map, true, subst, ℕ, ℤ, zero, suc,
  ◌≡◌, ◌≢◌, String, Option, none, some,
}
use claude_oauth_proxy.Core.{Error, ok}
use claude_oauth_proxy.Anthropic.Stream.{Event, opened}
use claude_oauth_proxy.Anthropic.Stream.Chunks.{
  pieces, told, seen, farewell, any_tool, pieces-drain,
}
use claude_oauth_proxy.Openai.{ChatCompletionRequest, ChatCompletionChunk}
use claude_oauth_proxy.Anthropic.Stream.{Pulled, got, eof, failed, StreamState, next}
use claude_oauth_proxy.Anthropic.Stream.Drain.{
  Drained, Ending, at_eof, with_error, unfinished, continue, drain,
}
use claude_oauth_proxy.Http.{
  Services, Request, Exchange, HandlerConfig, limit_of, handle_chat_completions, chunk_event,
  done_event,
}
use claude_oauth_proxy.Http.Laws.Streaming.{handle_chat_completions-Plays, Plays, ends, fails, more}

abbrev pub error_of : Ending → Option Error
error_of at_eof = none
error_of (with_error e) = some e
error_of unfinished = none

-- The chunk stream's state is a part of the services' state `S`, which `view` reads and `set` replaces.
module _ {S F C : Type 0} (sv : Services S F C) (id model : String) (clock : ℕ → ℤ) (c : C)
    (view : S → StreamState F) (set : StreamState F → S → S)
    (view-set : (t : StreamState F) (s : S) → view (set t s) ≡ t)
    (pulls : (s : S)
      → sv.next c s ≡ ((next id model clock (view s)).0, set (next id model clock (view s)).1 s))
    (marshals : (k : ChatCompletionChunk F) → sv.marshal k ≡ none) where
  abbrev pub IsPlayed : S → Drained F → Type 0
  IsPlayed s d = (s' : S) × Plays sv c s d.chunks (error_of d.ending) s'

  once-IsPlayed :
      (fuel : ℕ) (s : S) (p : Pulled F × StreamState F)
      → sv.next c s ≡ (p.0, set p.1 s)
      → (continue (drain id model clock fuel) p).ending ≢ unfinished
      → ((r : S)
          → (drain id model clock fuel (view r)).ending ≢ unfinished
          → IsPlayed r (drain id model clock fuel (view r)))
      → IsPlayed s (continue (drain id model clock fuel) p)
  once-IsPlayed fuel s (eof, t) n over ih = (set t s, ends s (set t s) n)
  once-IsPlayed fuel s (failed e, t) n over ih = (set t s, fails e s (set t s) n)
  once-IsPlayed fuel s (got k, t) n over ih =
      let same = view-set t s in
      let (s', rest) =
        subst (λ (u : StreamState F). IsPlayed (set t s) (drain id model clock fuel u)) same
          (ih (set t s) (rw same over)) in
      (s', more k _ _ s (set t s) s' n (marshals k) rest)

  -- The chunks that a client gets of the Anthropic client's stream, when it pulls often enough to see
  -- the end, are what the HTTP surface is given of it, with the same end; where every chunk can be encoded.
  pub drain-Plays :
      (fuel : ℕ) (s : S)
      → (drain id model clock fuel (view s)).ending ≢ unfinished
      → IsPlayed s (drain id model clock fuel (view s))
  unfolding drain
  drain-Plays zero s over = absurd (over refl)
  drain-Plays (suc fuel) s over =
      once-IsPlayed fuel s (next id model clock (view s)) (pulls s) over (drain-Plays fuel)

  continue-short :
      (fuel : ℕ) (p : Pulled F × StreamState F)
      → ((u : StreamState F) → length (drain id model clock fuel u).chunks ≤ fuel)
      → length (continue (drain id model clock fuel) p).chunks ≤ suc fuel
  continue-short fuel (eof, t) ih = omega arith
  continue-short fuel (failed e, t) ih = omega arith
  continue-short fuel (got k, t) ih = omega (arith, ih t)

  length-drain : (fuel : ℕ) (u : StreamState F) → length (drain id model clock fuel u).chunks ≤ fuel
  unfolding drain
  length-drain zero u = omega arith
  length-drain (suc fuel) u = continue-short fuel (next id model clock u) (length-drain fuel)

  -- Where a chat request asks for a stream, and the provider opens a stream of the Anthropic client
  -- that does not fail and whose chunks can be encoded: with more rounds than there are upstream
  -- events and two, the answer is one event for every text, tool start and tool input before
  -- message_stop, one with the finish reason, and the end mark.
  pub handle_chat_completions-told :
      (cfg : HandlerConfig) (r : Request) (x : Exchange S F) (q : ChatCompletionRequest F) (s : S)
      (es : List Event) (rounds : ℕ)
      → sv.decode (limit_of cfg.max_request_body) r.body ≡ ok q
      → q.stream ≡ true
      → sv.create_chat_completion_stream q x.state ≡ (ok c, s)
      → view s ≡ opened es none
      → 2 + length es < rounds
      → (ks : List (ChatCompletionChunk F)) × ((handle_chat_completions sv rounds cfg r x).body
          ≡ x.body ++ (map chunk_event ks ++ done_event ∷ []))
        × (pieces ks ≡ told "" "" (seen es) ++ farewell (any_tool (seen es)) ∷ [])
  handle_chat_completions-told cfg r x q s es rounds decoded asked started viewed enough =
      let n = suc (length es) in
      let (ended, said) =
        subst
          (λ (u : StreamState F).
            ((drain id model clock (suc n) u).ending ≡ at_eof)
            × (pieces (drain id model clock (suc n) u).chunks
                ≡ told "" "" (seen es) ++ farewell (any_tool (seen es)) ∷ []))
          (sym viewed) (pieces-drain F id model clock es n (ground arith)) in
      let d = drain id model clock (suc n) (view s) in
      let (s', plays) = drain-Plays (suc n) s (λ e. cc) in
      let whole = subst (λ (end : Ending). Plays sv c s d.chunks (error_of end) s') ended plays in
      let short : ltb (length d.chunks) rounds ≡ true =
        ground (arith, length-drain (suc n) (view s)) in
      let sent =
        handle_chat_completions-Plays sv cfg r x q c s s' d.chunks none rounds decoded asked started
          whole short in
      (d.chunks, sent.0, said)
