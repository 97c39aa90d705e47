-- ===== src/Anthropic/Stream/Shape.antt =====
-- internal/provider/anthropic/service.go: the form of the chunks of `CreateChatCompletionStream`.
use mathlib.Core.Path.{refl}
use claude_oauth_proxy.Base.{
  subst, ℕ, ℤ, String, Bool, true, false, Bool-cases, Option, none, some, List, [], ◌∷◌, ◌≡◌, inl,
  inr, ◌||◌, ◌==◌, is_positive, if◌then◌else◌,
}
use claude_oauth_proxy.Openai.{ChatCompletionDelta, ChatCompletionChunk, Usage}
use claude_oauth_proxy.Anthropic.Errors.{SdkError}
use claude_oauth_proxy.Anthropic.Stream.{
  Event, content_block_start, content_block_delta, message_start, message_delta, message_stop,
  other_event, text_delta, thinking_delta, input_json_delta, other_delta, StreamState, Pulled, got,
  Handled, emit, pass, stop, empty_delta, tool_call, handle, handle_delta, finish_chunk, end_of,
  pull, next,
}

-- The delta of a chunk: text or a call, under the role "assistant" or none.
pub data IsDelta : ChatCompletionDelta → Type 0 where
  text :
      (first : Bool) (t : String)
      → IsDelta (record { role = if first then "" else "assistant"; content = t; tool_calls = [] })
  call :
      (first : Bool) (index : ℤ) (id name arguments : String)
      → IsDelta (record {
        role = if first then "" else "assistant";
        content = "";
        tool_calls = tool_call index id name arguments ∷ [];
      })

module _ {F : Type 0} where
  -- What a chunk says: something, or that the stream is over, why, and what was used.
  pub data IsBody : ChatCompletionDelta → Option String → Option (Usage F) → Type 0 where
    speaks : (d : ChatCompletionDelta) → IsDelta d → IsBody d none none
    ends :
        (tools : Bool) (u : Usage F)
        → IsBody empty_delta (some (if tools then "tool_calls" else "stop")) (some u)

  -- A chunk of the stream `id` of `model`, with one choice.
  pub data IsChunk (id model : String) : ChatCompletionChunk F → Type 0 where
    chunk :
        (created : ℤ) (d : ChatCompletionDelta) (finish : Option String) (u : Option (Usage F))
        → IsBody d finish u
        → IsChunk id model (record {
          id = id;
          object = "chat.completion.chunk";
          created = created;
          model = model;
          choices = record { index = 0; delta = d; finish_reason = finish } ∷ [];
          usage = u;
        })

module _ {F : Type 0} (id model : String) (clock : ℕ → ℤ) where
  abbrev IsPulled : Pulled F → Type 0
  IsPulled (got c) = IsChunk id model c
  IsPulled p = Unit

  abbrev IsHandled : Handled F → Type 0
  IsHandled (emit c st) = IsChunk id model c
  IsHandled h = Unit

  handle-IsHandled : (e : Event) (st : StreamState F) → IsHandled (handle id model clock e st)
  unfolding handle handle_delta
  handle-IsHandled (content_block_start kind i n) st = elim (Bool-cases (kind == "tool_use")) [
    | inl e ↦ rw e (chunk _ _ none none (speaks _ (call st.first_chunk_sent _ _ _ _)))
    | inr e ↦ rw e tt
  ]
  handle-IsHandled (content_block_delta (text_delta t)) st =
      chunk _ _ none none (speaks _ (text st.first_chunk_sent t))
  handle-IsHandled (content_block_delta (thinking_delta t)) st = tt
  handle-IsHandled (content_block_delta (input_json_delta t)) st =
      chunk _ _ none none (speaks _ (call true _ _ _ _))
  handle-IsHandled (content_block_delta other_delta) st = tt
  handle-IsHandled (message_start input output creation cached) st =
      elim (Bool-cases (is_positive input || is_positive creation || is_positive cached)) [
        | inl e ↦ rw e tt
        | inr e ↦ rw e tt
      ]
  handle-IsHandled (message_delta output creation cached) st = tt
  handle-IsHandled message_stop st = tt
  handle-IsHandled other_event st = tt

  finish_chunk-IsChunk : (st : StreamState F) → IsChunk id model (finish_chunk id model clock st)
  unfolding finish_chunk
  finish_chunk-IsChunk st = chunk _ _ _ _ (ends st.has_tool_use _)

  end_of-IsPulled :
      (e : Option SdkError) (st : StreamState F) → IsPulled (end_of id model clock e st).0
  unfolding end_of
  end_of-IsPulled (some e) st = tt
  end_of-IsPulled none st = finish_chunk-IsChunk st

  handled-IsPulled :
      (e : Event) (es : List Event) (st : StreamState F) (h : Handled F)
      → handle id model clock e st ≡ h
      → IsHandled h
      → ((st' : StreamState F) → IsPulled (pull id model clock es st').0)
      → IsPulled (pull id model clock (e ∷ es) st).0
  unfolding pull
  handled-IsPulled e es st (emit c st') eq is_chunk rest = rw (eq, pull) is_chunk
  handled-IsPulled e es st (pass st') eq is_chunk rest = rw (eq, pull) (rest st')
  handled-IsPulled e es st (stop st') eq is_chunk rest =
      rw (eq, pull) (finish_chunk-IsChunk (record st' { upstream = es }))

  pull-IsPulled : (es : List Event) (st : StreamState F) → IsPulled (pull id model clock es st).0
  unfolding pull
  pull-IsPulled [] st = end_of-IsPulled st.failure _
  pull-IsPulled (e ∷ es) st =
      handled-IsPulled e es st (handle id model clock e st) refl (handle-IsHandled e st)
        (pull-IsPulled es)

  either-IsPulled :
      (b : Bool) (p q : Pulled F × StreamState F)
      → IsPulled p.0
      → IsPulled q.0
      → IsPulled (if b then p else q).0
  either-IsPulled true p q h k = h
  either-IsPulled false p q h k = k

  next-IsPulled : (st : StreamState F) → IsPulled (next id model clock st).0
  unfolding next
  next-IsPulled st = either-IsPulled st.finished _ _ tt (pull-IsPulled st.upstream st)

  -- Every chunk that next gives, from any state, is a chunk of its stream: it has the id and the
  -- model of the stream and one choice, whose delta is, under the role assistant or none, a text or
  -- one tool call with its index, without a finish reason and without usage; or the delta is empty,
  -- the finish reason is tool_calls or stop, and the usage is there.
  pub next-IsChunk :
      (st : StreamState F) (c : ChatCompletionChunk F)
      → (next id model clock st).0 ≡ got c
      → IsChunk id model c
  next-IsChunk st c h = subst IsPulled h (next-IsPulled st)
