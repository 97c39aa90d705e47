-- ===== src/Anthropic/Stream/Chunks.antt =====
-- internal/provider/anthropic/service.go: what the chunks of `CreateChatCompletionStream` say, taken
-- together, about the events that they come from.
use mathlib.Core.Path.{refl, ap}
use mathlib.Core.Bool.{or-true, or-false}
use claude_oauth_proxy.Base.{
  ap, inr, inl, Bool-cases, ℕ, ℤ, suc, String, Bool, true, false, ◌==◌, Option, none, some, List,
  [], ◌∷◌, ◌++◌, map, length, ltb, if◌then◌else◌, ◌≡◌, ◌||◌,
}
use claude_oauth_proxy.Openai.{FunctionCall, ChatCompletionChunk}
use claude_oauth_proxy.Anthropic.Stream.{
  is_positive, ToolCall, StreamState, opened, handle, handle_delta, finish_chunk,
}
use claude_oauth_proxy.Anthropic.Stream.Events.{
  Event, content_block_start, content_block_delta, message_start, message_delta, message_stop,
  other_event, text_delta, thinking_delta, input_json_delta, other_delta,
}
use claude_oauth_proxy.Anthropic.Stream.Drain.{at_eof, run, drain, drain_total}

-- The events up to `message_stop`.
abbrev pub seen : List Event → List Event
seen [] = []
seen (message_stop ∷ es) = []
seen (e ∷ es) = e ∷ seen es

abbrev pub starts_tool : Event → Bool
starts_tool (content_block_start kind id name) = kind == "tool_use"
starts_tool e = false

abbrev pub any_tool : List Event → Bool
any_tool [] = false
any_tool (e ∷ es) = starts_tool e || any_tool es

-- What a chunk says: text, calls by their identifier, and a reason to end.
pub record Piece : Type 0 where
  pub content : String
  pub calls : List (String × FunctionCall)
  pub finish_reason : Option String

abbrev call_of : ToolCall → String × FunctionCall
call_of call = (call.id, call.function)

abbrev pub pieces : {F : Type 0} → List (ChatCompletionChunk F) → List Piece
pieces [] = []
pieces (c ∷ cs) =
    map
      (λ choice. record {
        content = choice.delta.content;
        calls = map call_of choice.delta.tool_calls;
        finish_reason = choice.finish_reason;
      })
      c.choices
    ++ pieces cs

abbrev pub says : String → Piece
says text = record { content = text; calls = []; finish_reason = none }

abbrev pub calls : (id name arguments : String) → Piece
calls id name arguments = record {
  content = "";
  calls = (id, record { name = name; arguments = arguments }) ∷ [];
  finish_reason = none;
}

-- What the events say, inside a call of the tool `name`.
abbrev pub told : (id name : String) → List Event → List Piece
told id name [] = []
told id name (content_block_start kind id' name' ∷ es) =
    if kind == "tool_use" then calls id' name' "" ∷ told id' name' es else told id name es
told id name (content_block_delta (text_delta text) ∷ es) = says text ∷ told id name es
told id name (content_block_delta (input_json_delta json) ∷ es) =
    calls id name json ∷ told id name es
told id name (e ∷ es) = told id name es

abbrev pub farewell : Bool → Piece
farewell tools = record {
  content = "";
  calls = [];
  finish_reason = some (if tools then "tool_calls" else "stop");
}

module _ {F : Type 0} (id model : String) (clock : ℕ → ℤ) where
  pieces-run :
      (es : List Event) (st : StreamState F)
      → st.failure ≡ none
      → pieces (run id model clock es st).chunks
        ≡ told st.current_tool_id st.current_tool_name (seen es)
          ++ farewell (st.has_tool_use || any_tool (seen es)) ∷ []
  unfolding run handle handle_delta finish_chunk
  pieces-run [] st h = rw (h, or-false st.has_tool_use)
  pieces-run (content_block_start kind id' name ∷ es) st h =
      elim (Bool-cases (kind == "tool_use")) [
        | inl e ↦
            rw (e, run, handle, or-true st.has_tool_use)
              (ap (calls id' name "" ∷◌) (pieces-run es _ h))
        | inr e ↦ rw (e, run, handle) (pieces-run es st h)
      ]
  pieces-run (content_block_delta (text_delta t) ∷ es) st h = ap (says t ∷◌) (pieces-run es _ h)
  pieces-run (content_block_delta (thinking_delta t) ∷ es) st h = pieces-run es _ h
  pieces-run (content_block_delta (input_json_delta t) ∷ es) st h =
      ap (calls st.current_tool_id st.current_tool_name t ∷◌) (pieces-run es _ h)
  pieces-run (content_block_delta other_delta ∷ es) st h = pieces-run es _ h
  pieces-run (message_start input output creation cached ∷ es) st h =
      elim (Bool-cases (is_positive input || is_positive creation || is_positive cached)) [
        | inl e ↦ rw (e, run, handle) (pieces-run es _ h)
        | inr e ↦ rw (e, run, handle) (pieces-run es st h)
      ]
  pieces-run (message_delta output creation cached ∷ es) st h = pieces-run es _ h
  pieces-run (message_stop ∷ es) st h = rw (or-false st.has_tool_use)
  pieces-run (other_event ∷ es) st h = pieces-run es _ h

  run_ending :
      (es : List Event) (st : StreamState F)
      → st.failure ≡ none
      → (run id model clock es st).ending ≡ at_eof
  unfolding run handle handle_delta finish_chunk
  run_ending [] st h = rw h
  run_ending (content_block_start kind id' name ∷ es) st h =
      elim (Bool-cases (kind == "tool_use")) [
        | inl e ↦ rw (e, run, handle) (run_ending es _ h)
        | inr e ↦ rw (e, run, handle) (run_ending es st h)
      ]
  run_ending (content_block_delta (text_delta t) ∷ es) st h = run_ending es _ h
  run_ending (content_block_delta (thinking_delta t) ∷ es) st h = run_ending es _ h
  run_ending (content_block_delta (input_json_delta t) ∷ es) st h = run_ending es _ h
  run_ending (content_block_delta other_delta ∷ es) st h = run_ending es _ h
  run_ending (message_start input output creation cached ∷ es) st h =
      elim (Bool-cases (is_positive input || is_positive creation || is_positive cached)) [
        | inl e ↦ rw (e, run, handle) (run_ending es _ h)
        | inr e ↦ rw (e, run, handle) (run_ending es st h)
      ]
  run_ending (message_delta output creation cached ∷ es) st h = run_ending es _ h
  run_ending (message_stop ∷ es) st h = refl
  run_ending (other_event ∷ es) st h = run_ending es _ h

module _ (F : Type 0) (id model : String) (clock : ℕ → ℤ) where
  -- When the upstream stream does not fail, a client that calls next more often than there are
  -- events, and once more, gets one chunk for every text, tool start and tool input before
  -- message_stop, in order and with what it says (a tool input under its own tool), then one last
  -- chunk, the only one with a finish reason: tool_calls when a tool was started and stop
  -- otherwise. Then the stream is at its end.
  pub pieces-drain :
      (es : List Event) (fuel : ℕ)
      → ltb (length es) fuel ≡ true
      → ((drain id model clock (suc fuel) (opened {F = F} es none)).ending ≡ at_eof)
        × (pieces (drain id model clock (suc fuel) (opened {F = F} es none)).chunks
            ≡ told "" "" (seen es) ++ farewell (any_tool (seen es)) ∷ [])
  pieces-drain es fuel enough = rw (drain_total id model clock (opened es none) fuel refl enough) (
    run_ending id model clock es (opened es none) refl,
    pieces-run id model clock es (opened es none) refl,
  )
