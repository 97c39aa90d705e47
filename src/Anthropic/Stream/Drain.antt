-- ===== src/Anthropic/Stream/Drain.antt =====
-- internal/provider/anthropic/service.go: a client that calls `next` until the stream of
-- `CreateChatCompletionStream` ends.
use mathlib.Core.Path.{refl, ap}
use claude_oauth_proxy.Base.{
  arith, ◌≡◌, ℕ, ℤ, zero, suc, String, true, false, Option, none, some, List, [], ◌∷◌, length, ltb,
}
use claude_oauth_proxy.Core.{Error}
use claude_oauth_proxy.Openai.{ChatCompletionChunk}
use claude_oauth_proxy.Anthropic.Errors.{SdkError, translate_error}
use claude_oauth_proxy.Anthropic.Stream.{
  handle_delta, end_of, finish_chunk, closed, Event, StreamState, Pulled, Handled, got, eof, failed,
  emit, pass, stop, handle, pull, next,
}

pub data Ending : Type 0 where
  at_eof : Ending
  with_error : Error → Ending
  unfinished : Ending

pub record Drained (F : Type 0) : Type 0 where
  pub chunks : List (ChatCompletionChunk F)
  pub ending : Ending

abbrev pub after : {F : Type 0} → ChatCompletionChunk F → Drained F → Drained F
after c d = record { chunks = c ∷ d.chunks; ending = d.ending }

abbrev pub ends : {F : Type 0} → Ending → Drained F
ends e = record { chunks = []; ending = e }

abbrev pub continue :
    {F : Type 0} → (StreamState F → Drained F) → Pulled F × StreamState F → Drained F
continue more (got c, st) = after c (more st)
continue more (eof, st) = ends at_eof
continue more (failed e, st) = ends (with_error e)

unfoldable state_of : {F : Type 0} → Handled F → StreamState F
state_of (emit c st) = st
state_of (pass st) = st
state_of (stop st) = st

module _ {F : Type 0} (id model : String) (clock : ℕ → ℤ) where
  -- At most `fuel` calls of `next`.
  unfoldable pub drain : ℕ → StreamState F → Drained F
  drain zero st = ends unfinished
  drain (suc fuel) st = continue (drain fuel) (next id model clock st)

  -- The whole run of a stream that is not finished, by recursion on the events.
  unfoldable pub run : List Event → StreamState F → Drained F
  run [] st = elim st.failure [
    | some e ↦ ends (with_error (translate_error "stream anthropic message" e))
    | none ↦ after (finish_chunk id model clock (record st { upstream = [] })) (ends at_eof)
  ]
  run (e ∷ es) st = elim (handle id model clock e st) [
    | emit c st' ↦ after c (run es (record st' { upstream = es }))
    | pass st' ↦ run es st'
    | stop st' ↦ after (finish_chunk id model clock (record st' { upstream = es })) (ends at_eof)
  ]

  finished_drain :
      (fuel : ℕ) (st : StreamState F) → st.finished ≡ true → drain (suc fuel) st ≡ ends at_eof
  unfolding drain next
  finished_drain fuel st h = rw h

  handle-open :
      (e : Event) (st : StreamState F)
      → st.finished ≡ false
      → (state_of (handle id model clock e st)).finished ≡ false
  unfolding handle handle_delta state_of
  handle-open e st h = ground arith

  next_open :
      (st : StreamState F)
      → st.finished ≡ false
      → next id model clock st ≡ pull id model clock st.upstream st
  unfolding next
  next_open st h = rw h

  drain_ended :
      (end : Option SdkError) (st : StreamState F) (fuel : ℕ)
      → st.failure ≡ end
      → st.finished ≡ false
      → continue (drain (suc fuel)) (end_of id model clock end (record st { upstream = [] }))
        ≡ run [] st
  unfolding drain next end_of run
  drain_ended none st fuel g h = rw g
  drain_ended (some e) st fuel g h = rw g

  drain_handled :
      (e : Event) (es : List Event) (st : StreamState F) (fuel : ℕ) (handled : Handled F)
      → handle id model clock e st ≡ handled
      → (state_of handled).finished ≡ false
      → ltb (suc (length es)) (suc fuel) ≡ true
      → ((st : StreamState F) (fuel : ℕ)
          → st.finished ≡ false
          → ltb (length es) fuel ≡ true
          → continue (drain fuel) (pull id model clock es st) ≡ run es st)
      → continue (drain (suc fuel)) (pull id model clock (e ∷ es) st) ≡ run (e ∷ es) st
  unfolding drain run state_of pull
  drain_handled e es st zero (emit c st') eq h enough ih = ground arith
  drain_handled e es st (suc fuel) (emit c st') eq h enough ih =
      rw (eq, pull, run)
        (rw (next_open (record st' { upstream = es }) h)
          (ap (after c) (ih (record st' { upstream = es }) (suc fuel) h (ground arith))))
  drain_handled e es st fuel (pass st') eq h enough ih =
      rw (eq, pull, run) (ih st' (suc fuel) h (ground arith))
  drain_handled e es st fuel (stop st') eq h enough ih =
      rw (eq, pull, run)
        (ap (after (finish_chunk id model clock (record st' { upstream = es })))
          (finished_drain fuel (closed id model clock (record st' { upstream = es })) refl))

  pull-run :
      (es : List Event) (st : StreamState F) (fuel : ℕ)
      → st.finished ≡ false
      → ltb (length es) fuel ≡ true
      → continue (drain fuel) (pull id model clock es st) ≡ run es st
  unfolding pull
  pull-run [] st zero h enough = ground arith
  pull-run (e ∷ es) st zero h enough = ground arith
  pull-run [] st (suc fuel) h enough = drain_ended st.failure st fuel refl h
  pull-run (e ∷ es) st (suc fuel) h enough =
      drain_handled e es st fuel (handle id model clock e st) refl (handle-open e st h) enough
        (pull-run es)

  -- From a stream that is not finished, a client that calls next more often than there are events
  -- left, and once more, gets what the run of the stream by recursion on these events gives: the
  -- same chunks and the same end, however many more calls it makes.
  pub drain_total :
      (st : StreamState F) (fuel : ℕ)
      → st.finished ≡ false
      → ltb (length st.upstream) fuel ≡ true
      → drain (suc fuel) st ≡ run st.upstream st
  unfolding drain
  drain_total st fuel h enough = rw (next_open st h) (pull-run st.upstream st fuel h enough)
