-- ===== src/Anthropic/Examples/Replies.antt =====
-- internal/provider/anthropic/service.go: responses, streams and calls on concrete input.
use mathlib.Core.Path.{refl}
use claude_oauth_proxy.Base.{
  ◌==◌, if◌then◌else◌, ℕ, pos, suc, ◌≡◌, String, Bool, true, none, some, List, [], ◌∷◌, map, arith,
}
use claude_oauth_proxy.Core.{ok, err, Action}
use claude_oauth_proxy.Auth.{AccessTokenOutput}
use claude_oauth_proxy.Anthropic.{unauthorized, SdkError, api}
use claude_oauth_proxy.Anthropic.Response.{text, thinking, tool_use, Message, map_response}
use claude_oauth_proxy.Json.Raw.{document, compact_from}
use claude_oauth_proxy.Anthropic.Response.Laws.{IsFinish, map_response_choices, map_response_usage}
use claude_oauth_proxy.Anthropic.Stream.{
  Event, opened, content_block_start, content_block_delta, message_start, message_delta,
  message_stop, text_delta, thinking_delta, input_json_delta,
}
use claude_oauth_proxy.Anthropic.Stream.Drain.{drain, at_eof}
use claude_oauth_proxy.Anthropic.Stream.Chunks.{pieces, says, calls, farewell, pieces-drain}
use claude_oauth_proxy.Anthropic.Stream.Blocks.{
  written, nothing, IsStreamOf, between, thoughts, texts, tool, stopped,
}
use claude_oauth_proxy.Anthropic.Stream.Client.{Answer, hear, nothing_said}
use claude_oauth_proxy.Anthropic.Stream.Whole.{answer_of, IsSameAnswer, heard-map_response}
use claude_oauth_proxy.Anthropic.Stream.Shape.{IsChunk, next-IsChunk}
use claude_oauth_proxy.Anthropic.Stream.{next, pull, handle, handle_delta}
use claude_oauth_proxy.Openai.{ToolCall, ChatCompletionChunk}
use claude_oauth_proxy.Anthropic.Calls.{Upstream, call_twice}
use claude_oauth_proxy.Anthropic.Calls.Laws.{Outcome, call_twice-Outcome}

abbrev answer : Message
answer = record {
  content =
      thinking "hm"
      ∷ text "It is "
      ∷ text "sunny"
      ∷ tool_use "t1" "weather" (document "{ \"city\": \"A & B\" }")
      ∷ tool_use "t2" "now" (document "{}")
      ∷ [];
  stop_reason = "tool_use";
  input_tokens = pos 10;
  output_tokens = pos 5;
  cache_creation_input_tokens = pos 2;
  cache_read_input_tokens = pos 3;
}

abbrev called : (id name arguments : String) → ToolCall
called id name arguments = record {
  index = none;
  id = id;
  kind = "function";
  function = record { name = name; arguments = arguments };
}

map_response_choices_example :
    (finish : String) × IsFinish "tool_use" finish
    × ((map_response {F = ℕ} "claude" (some answer) (pos 7) (pos 0)).choices
        ≡ record {
          index = 0;
          message = record {
            role = "assistant";
            content = "It is sunny";
            name = "";
            tool_calls =
                called "t1" "weather" "{\"city\":\"A \\u0026 B\"}" ∷ called "t2" "now" "{}" ∷ [];
            tool_call_id = "";
          };
          finish_reason = finish;
        }
          ∷ [])
unfolding compact_from
map_response_choices_example = map_response_choices ℕ "claude" (pos 7) (pos 0) answer

map_response_usage_example :
    let r = map_response {F = ℕ} "claude" (some answer) (pos 7) (pos 0) in
    (r.usage.prompt_tokens ≡ pos 15)
    × (r.usage.completion_tokens ≡ pos 5)
    × (r.usage.total_tokens ≡ pos 20)
map_response_usage_example =
    map_response_usage ℕ "claude" (pos 7) (pos 0) answer.content answer.stop_reason 10 5 2 3
      (omega arith)

abbrev pub events : List Event
events =
    message_start (pos 10) (pos 1) (pos 2) (pos 3)
    ∷ content_block_delta (text_delta "sunny")
    ∷ content_block_start "tool_use" "t1" "weather"
    ∷ content_block_delta (input_json_delta "{}")
    ∷ message_delta (pos 5) (pos 2) (pos 3)
    ∷ message_stop
    ∷ content_block_delta (text_delta "late")
    ∷ []

pieces-drain_example :
    ((drain {F = ℕ} "chatcmpl-7" "claude" (λ n. pos n) 9 (opened events none)).ending ≡ at_eof)
    × (pieces (drain {F = ℕ} "chatcmpl-7" "claude" (λ n. pos n) 9 (opened events none)).chunks
        ≡ says "sunny" ∷ calls "t1" "weather" "" ∷ calls "t1" "weather" "{}" ∷ farewell true ∷ [])
pieces-drain_example = pieces-drain ℕ "chatcmpl-7" "claude" (λ n. pos n) events 8 refl

abbrev first_chunk : ChatCompletionChunk ℕ
first_chunk = record {
  id = "chatcmpl-7";
  object = "chat.completion.chunk";
  created = pos 0;
  model = "claude";
  choices =
      record {
        index = 0;
        delta = record { role = "assistant"; content = "sunny"; tool_calls = [] };
        finish_reason = none;
      }
      ∷ [];
  usage = none;
}

next-IsChunk_example : IsChunk "chatcmpl-7" "claude" first_chunk
unfolding next pull handle handle_delta
next-IsChunk_example =
    next-IsChunk "chatcmpl-7" "claude" (λ n. pos n) (opened events none) first_chunk refl

-- The answer above as it is streamed.
abbrev streamed : List Event
streamed =
    message_start (pos 10) (pos 1) (pos 2) (pos 3)
    ∷ content_block_start "thinking" "" ""
    ∷ content_block_delta (thinking_delta "hm")
    ∷ content_block_start "text" "" ""
    ∷ content_block_delta (text_delta "It ")
    ∷ content_block_delta (text_delta "is ")
    ∷ content_block_delta (text_delta "sunny")
    ∷ content_block_start "tool_use" "t1" "weather"
    ∷ content_block_delta (input_json_delta "{\"city\":")
    ∷ content_block_delta (input_json_delta " \"A & B\"}")
    ∷ content_block_start "tool_use" "t2" "now"
    ∷ content_block_delta (input_json_delta "")
    ∷ message_delta (pos 5) (pos 2) (pos 3)
    ∷ message_stop
    ∷ []

streamed-IsStreamOf : IsStreamOf streamed answer.content
unfolding compact_from
streamed-IsStreamOf = between _ _ _ refl (
    between _ _ _ refl (
      thoughts ("hm" ∷ []) _ _ (
        between _ _ _ refl (
          texts ("It " ∷ "is " ∷ []) _ _ (
            texts ("sunny" ∷ []) _ _ (
              tool "t1" "weather" ("{\"city\":" ∷ " \"A & B\"}" ∷ []) _ _ _
                (written "{\"city\": \"A & B\"}")
                (tool "t2" "now" ("" ∷ []) _ _ _ nothing (between _ _ _ refl (stopped [])))))))))

heard-map_response_example :
    (whole : Answer) × (map answer_of
        (map_response {F = ℕ} "claude" (some answer) (pos 7) (pos 0)).choices
      ≡ whole ∷ [])
    × IsSameAnswer
        (hear
          (drain {F = ℕ} "chatcmpl-7" "claude" (λ n. pos n) 16 (opened streamed none)).chunks
          nothing_said)
        whole
heard-map_response_example =
    heard-map_response ℕ "chatcmpl-7" "claude" (λ n. pos n) (pos 7) (pos 0) answer streamed 15
      streamed-IsStreamOf (omega arith) refl

-- The first token is stale: the upstream answers 401 until the token is renewed.
abbrev granted : Bool → AccessTokenOutput
granted force = record { token = if force then "new" else "old"; expires_at = pos 0 }

abbrev greet : String → Action ℕ SdkError String
greet token n = if token == "new" then (ok "hello", suc n) else (err (api 401 "expired"), suc n)

abbrev pub upstream : Upstream ℕ ℕ String
upstream = record {
  access_token = λ force n. (ok (granted force), suc n);
  list_models = λ client timeout n. (ok [], suc n);
  new_message = λ client timeout p n. (ok answer, suc n);
  new_streaming = λ client p n. ((events, none), suc n);
  now = λ n. (pos n, pos 0);
}

call_twice-Outcome_example : Outcome upstream "greet" greet "old" 0 (ok "hello", 3)
unfolding call_twice unauthorized
call_twice-Outcome_example = call_twice-Outcome upstream "greet" greet "old" 0
