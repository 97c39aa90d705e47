-- ===== src/Anthropic/Stream.antt =====
-- internal/provider/anthropic/service.go: the state machine of `CreateChatCompletionStream`, from the
-- upstream's events to OpenAI chunks.
mod Events
pub mod Drain
pub mod Chunks
pub mod Client
pub mod Shape
pub mod Blocks
pub mod Heard
pub mod Whole
use Prim.Native.String
use claude_oauth_proxy.Base.{
  ℕ, ℤ, pos, suc, add64, sub64, is_positive, String, Bool, true, false, ◌||◌, ◌==◌, Option, none,
  some, List, [], ◌∷◌, if◌then◌else◌,
}
use claude_oauth_proxy.Core.{Error}
use claude_oauth_proxy.Openai.{
  Usage, usage_zero, ToolCall, ChatCompletionDelta, ChatCompletionChunk, ChatCompletionChunkChoice,
}
use claude_oauth_proxy.Anthropic.Errors.{SdkError, translate_error}
use claude_oauth_proxy.Anthropic.Response.{estimate_thinking_tokens}
pub use Events.*

-- The variables that `next` closes over. `upstream` and `failure` are what is left of the SDK's
-- stream and what it ends with; `reads` counts the readings of the clock.
pub record StreamState (F : Type 0) : Type 0 where
  pub first_chunk_sent : Bool
  pub finished : Bool
  pub has_tool_use : Bool
  pub usage : Usage F
  pub current_tool_id : String
  pub current_tool_name : String
  pub tool_call_index : ℤ
  pub thinking_chars : ℤ
  pub upstream : List Event
  pub failure : Option SdkError
  pub reads : ℕ

pub data Pulled (F : Type 0) : Type 0 where
  got : ChatCompletionChunk F → Pulled F
  eof : Pulled F
  failed : Error → Pulled F

-- What one event does: a chunk, nothing, or the end.
pub data Handled (F : Type 0) : Type 0 where
  emit : ChatCompletionChunk F → StreamState F → Handled F
  pass : StreamState F → Handled F
  stop : StreamState F → Handled F

abbrev pub opened : {F : Type 0} → List Event → Option SdkError → StreamState F
opened events failure = record {
  first_chunk_sent = false;
  finished = false;
  has_tool_use = false;
  usage = usage_zero;
  current_tool_id = "";
  current_tool_name = "";
  tool_call_index = pos 0;
  thinking_chars = pos 0;
  upstream = events;
  failure = failure;
  reads = 0;
}

abbrev pub empty_delta : ChatCompletionDelta
empty_delta = record { role = ""; content = ""; tool_calls = [] }

abbrev pub tool_call : ℤ → String → String → String → ToolCall
tool_call index id' name arguments = record {
  index = some index;
  id = id';
  kind = "function";
  function = record { name = name; arguments = arguments };
}

-- The usage that `message_start` records.
abbrev pub started : {F : Type 0} → (input output creation cached : ℤ) → Usage F → Usage F
started input output creation cached usage =
    let total = add64 (add64 input creation) cached in
    record usage {
      prompt_tokens = total;
      total_tokens = add64 total output;
      cache_creation_input_tokens = creation;
      cache_read_input_tokens = cached;
    }

-- `id` and `model` are the stream's; `clock n` is the n-th reading of the clock, in seconds.
module _ {F : Type 0} (id model : String) (clock : ℕ → ℤ) where
  abbrev pub chunk_of :
      ChatCompletionDelta → Option String → Option (Usage F) → ℕ → ChatCompletionChunk F
  chunk_of delta finish usage reads = record {
    id = id;
    object = "chat.completion.chunk";
    created = clock reads;
    model = model;
    choices = record { index = 0; delta = delta; finish_reason = finish } ∷ [];
    usage = usage;
  }

  abbrev pub tick : StreamState F → StreamState F
  tick st = record st { reads = suc st.reads }

  -- The role goes with the first chunk only.
  abbrev pub first_role : StreamState F → String
  first_role st = if st.first_chunk_sent then "" else "assistant"

  unfoldable pub handle_delta : Delta → StreamState F → Handled F
  handle_delta (text_delta text) st =
      emit
        (chunk_of (record { role = first_role st; content = text; tool_calls = [] }) none none
          st.reads)
        (record (tick st) { first_chunk_sent = true })
  handle_delta (thinking_delta text) st =
      pass (record st { thinking_chars = add64 st.thinking_chars (pos (String.len text)) })
  handle_delta (input_json_delta json) st =
      emit
        (chunk_of
          (record {
            role = "";
            content = "";
            tool_calls =
                tool_call (sub64 st.tool_call_index (pos 1)) st.current_tool_id st.current_tool_name
                  json
                ∷ [];
          })
          none none st.reads)
        (tick st)
  handle_delta other_delta st = pass st

  unfoldable pub handle : Event → StreamState F → Handled F
  unfolding handle_delta
  handle (content_block_start kind id' name) st =
      if kind == "tool_use"
      then emit
          (chunk_of
            (record {
              role = first_role st;
              content = "";
              tool_calls = tool_call st.tool_call_index id' name "" ∷ [];
            })
            none none st.reads)
          (record (tick st) {
            has_tool_use = true;
            current_tool_id = id';
            current_tool_name = name;
            first_chunk_sent = true;
            tool_call_index = add64 st.tool_call_index (pos 1);
          })
      else pass st
  handle (content_block_delta delta) st = handle_delta delta st
  handle (message_start input output creation cached) st =
      if is_positive input || is_positive creation || is_positive cached
      then pass (record st { usage = started input output creation cached st.usage })
      else pass st
  handle (message_delta output creation cached) st = pass (record st {
    usage = record st.usage {
      completion_tokens = output;
      cache_creation_input_tokens = creation;
      cache_read_input_tokens = cached;
      total_tokens = add64 st.usage.prompt_tokens output;
    };
  })
  handle message_stop st = stop st
  handle other_event st = pass st

  abbrev pub final_usage : StreamState F → Usage F
  final_usage st = record st.usage {
    cached_tokens =
        if is_positive st.usage.cache_read_input_tokens
          || is_positive st.usage.cache_creation_input_tokens
        then some st.usage.cache_read_input_tokens
        else st.usage.cached_tokens;
    reasoning_tokens =
        if is_positive st.thinking_chars
        then some (estimate_thinking_tokens st.thinking_chars)
        else st.usage.reasoning_tokens;
  }

  -- `finishChunk`
  unfoldable pub finish_chunk : StreamState F → ChatCompletionChunk F
  finish_chunk st =
      chunk_of empty_delta (some (if st.has_tool_use then "tool_calls" else "stop"))
        (some (final_usage st)) st.reads

  abbrev pub closed : StreamState F → StreamState F
  closed st = record (tick st) { finished = true; usage = final_usage st }

  abbrev pub finish : StreamState F → Pulled F × StreamState F
  finish st = (got (finish_chunk st), closed st)

  unfoldable pub end_of : Option SdkError → StreamState F → Pulled F × StreamState F
  end_of (some e) st = (failed (translate_error "stream anthropic message" e), st)
  end_of none st = finish st

  -- The loop over the events that are left.
  unfoldable pub pull : List Event → StreamState F → Pulled F × StreamState F
  unfolding handle end_of finish_chunk
  pull [] st = end_of st.failure (record st { upstream = [] })
  pull (e ∷ es) st = elim (handle e st) [
    | emit c st' ↦ (got c, record st' { upstream = es })
    | pass st' ↦ pull es st'
    | stop st' ↦ finish (record st' { upstream = es })
  ]

  -- `next`
  unfoldable pub next : StreamState F → Pulled F × StreamState F
  unfolding pull end_of
  next st = if st.finished then (eof, st) else pull st.upstream st
