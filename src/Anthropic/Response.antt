-- ===== src/Anthropic/Response.antt =====
-- internal/provider/anthropic/service.go: `mapResponse` and `estimateThinkingTokens`.
pub mod Laws
use Prim.Native.String
use Prim.Native.Nat.{suc, ◌/◌}
use claude_oauth_proxy.Base.{
  zero, suc, ℕ, ℤ, pos, negsuc, add64, is_positive, String, ◌⧺◌, Bool, ◌||◌, ◌==◌, Option, none,
  some, List, [], ◌∷◌, ◌++◌, if◌then◌else◌, is_empty, show_ℤ,
}
use claude_oauth_proxy.Json.Raw.{RawMessage, marshal_raw}
use claude_oauth_proxy.Openai.{Usage, usage_zero, ToolCall, ChatCompletionResponse}

-- int64 division by 4 of a number that is not negative, or that has wrapped around.
negated : ℕ → ℤ
negated zero = pos 0
negated (suc k) = negsuc k

div4 : ℤ → ℤ
unfolding negated
div4 (pos n) = pos (n / 4)
div4 (negsuc n) = negated (suc n / 4)

unfoldable pub estimate_thinking_tokens : ℤ → ℤ
unfolding div4
estimate_thinking_tokens chars = if is_positive chars then div4 (add64 chars (pos 3)) else pos 0

-- The blocks of a message.
pub data Block : Type 0 where
  text : String → Block
  thinking : String → Block
  tool_use : (id name : String) → RawMessage → Block
  other_block : Block

pub record Message : Type 0 where
  pub content : List Block
  pub stop_reason : String
  pub input_tokens : ℤ
  pub output_tokens : ℤ
  pub cache_creation_input_tokens : ℤ
  pub cache_read_input_tokens : ℤ

-- The variables of the loop over the blocks.
pub record Gathered : Type 0 where
  pub content : String
  pub tool_calls : List ToolCall
  pub thinking_tokens : ℤ

unfoldable pub gather : List Block → Gathered → Gathered
gather [] g = g
gather (text t ∷ bs) g = gather bs (record g { content = g.content ⧺ t })
gather (thinking t ∷ bs) g = gather bs (record g {
  thinking_tokens = add64 g.thinking_tokens (estimate_thinking_tokens (pos (String.len t)));
})
gather (tool_use id name input ∷ bs) g = gather bs (record g {
  tool_calls =
      g.tool_calls
      ++ record {
        index = none;
        id = id;
        kind = "function";
        function = record { name = name; arguments = marshal_raw input };
      }
        ∷ [];
})
gather (other_block ∷ bs) g = gather bs g

abbrev pub nothing_gathered : Gathered
nothing_gathered = record { content = ""; tool_calls = []; thinking_tokens = pos 0 }

abbrev pub finish_of : String → String
finish_of reason =
    if is_empty reason then "stop" else if reason == "tool_use" then "tool_calls" else reason

module _ {F : Type 0} where
  unfoldable pub usage_of : Message → ℤ → Usage F
  usage_of m thinking_tokens =
      let total =
        add64 (add64 m.input_tokens m.cache_creation_input_tokens) m.cache_read_input_tokens in
      record {
        prompt_tokens = total;
        completion_tokens = m.output_tokens;
        total_tokens = add64 total m.output_tokens;
        cached_tokens =
            if is_positive m.cache_read_input_tokens || is_positive m.cache_creation_input_tokens
            then some m.cache_read_input_tokens
            else none;
        reasoning_tokens = if is_positive thinking_tokens then some thinking_tokens else none;
        cache_creation_input_tokens = m.cache_creation_input_tokens;
        cache_read_input_tokens = m.cache_read_input_tokens;
        cost = none;
      }

  unfoldable pub respond : String → ℤ → ℤ → Gathered → String → Usage F → ChatCompletionResponse F
  respond model nanos seconds g finish usage = record {
    id = "chatcmpl-" ⧺ show_ℤ nanos;
    object = "chat.completion";
    created = seconds;
    model = model;
    choices =
        record {
          index = 0;
          message = record {
            role = "assistant";
            content = g.content;
            name = "";
            tool_calls = g.tool_calls;
            tool_call_id = "";
          };
          finish_reason = finish;
        }
        ∷ [];
    usage = usage;
  }

  -- `createdAt` is given as `UnixNano` and `Unix`; the message may be nil.
  unfoldable pub map_response : String → Option Message → ℤ → ℤ → ChatCompletionResponse F
  unfolding usage_of respond gather
  map_response model none nanos seconds =
      respond model nanos seconds nothing_gathered "stop" usage_zero
  map_response model (some m) nanos seconds =
      let g = gather m.content nothing_gathered in
      respond model nanos seconds g (finish_of m.stop_reason) (usage_of m g.thinking_tokens)
