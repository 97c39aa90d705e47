-- ===== src/Anthropic/Examples.antt =====
-- internal/provider/anthropic/service.go: requests, responses, streams and calls on concrete input.
pub mod Replies
pub mod Services
use mathlib.Core.Path.{refl}
use claude_oauth_proxy.Base.{
  ℕ, ℤ, pos, ◌≡◌, ◌<◌, ◌↔◌, ◌≢◌, String, Bool, true, false, Option, none, some, List, [], ◌∷◌, ◌++◌,
  map, arith, is_blank, trim_space, length, all,
}
use claude_oauth_proxy.Core.{Error, Result, ok, err, panic, Action}
use claude_oauth_proxy.Openai.{ChatCompletionRequest, ChatCompletionMessage, Tool}
use claude_oauth_proxy.Anthropic.{MessageNewParams, Config, SdkError, api, transport}
use claude_oauth_proxy.Anthropic.Params.{message_params}
use claude_oauth_proxy.Anthropic.Params.Breakpoints.Limit.{AreMarked, message_params-AreMarked}
use claude_oauth_proxy.Anthropic.Params.Thinking.{IsWithinLimits, message_params-IsWithinLimits}
use claude_oauth_proxy.Anthropic.Params.Accepts.{
  message_params-roles, message_params-ok_iff, roles_out, role_of, is_known,
}

abbrev turn_of : String → String → ChatCompletionMessage
turn_of role content = record {
  role = role;
  content = content;
  name = "";
  tool_calls = [];
  tool_call_id = "";
}

abbrev pub weather : Tool
weather = record {
  kind = "function";
  function = record { name = "weather"; description = "the weather"; parameters = "{}" };
}

-- A conversation of three user turns that asks for some thinking.
abbrev pub request : ChatCompletionRequest ℕ
request = record {
  model = "claude-sonnet-4-5";
  messages =
      turn_of "system" "be brief"
      ∷ turn_of "user" "hi"
      ∷ turn_of "assistant" "hello"
      ∷ turn_of "user" "and"
      ∷ turn_of "user" "then"
      ∷ [];
  max_tokens = pos 100;
  temperature = none;
  top_p = none;
  stop = [];
  stream = false;
  user = "";
  tools = weather ∷ [];
  reasoning_effort = " low ";
}

abbrev pub cfg : Config
cfg = record {
  base_url = "https://api.anthropic.com";
  beta_header = "oauth-2025-04-20";
  billing_header = "cli";
  cc_version = "2.1";
  user_agent = "claude-cli/2.1";
  sdk_version = "0.74.0";
  runtime_version = "v25.8.1";
  stainless_os = "Linux";
  stainless_arch = "x64";
  request_timeout = pos 600000000000;
}

abbrev none_built : MessageNewParams ℕ String
none_built = record {
  model = "";
  max_tokens = pos 0;
  messages = [];
  temperature = none;
  top_p = none;
  stop_sequences = [];
  system = [];
  tools = [];
  thinking = none;
}

abbrev value : Result Error (MessageNewParams ℕ String) → MessageNewParams ℕ String
value (ok p) = p
value (err e) = none_built
value panic = none_built

abbrev built : MessageNewParams ℕ String
built = value (message_params 1 some cfg request (pos 0)).0

abbrev next_turn : ℤ
next_turn = (message_params 1 some cfg request (pos 0)).1

is_built : message_params 1 some cfg request (pos 0) ≡ (ok built, next_turn)
unfolding message_params is_blank
is_built = refl

message_params-AreMarked_example : AreMarked request built
message_params-AreMarked_example =
    message_params-AreMarked 1 some cfg request (pos 0) next_turn built is_built

message_params-IsWithinLimits_example : IsWithinLimits 1 built
message_params-IsWithinLimits_example =
    message_params-IsWithinLimits 1 some cfg request (pos 0) next_turn built is_built

message_params-ok_iff_example :
    ((p : MessageNewParams ℕ String) × ((message_params 1 some cfg request (pos 0)).0 ≡ ok p)) ↔ (
      (is_blank request.model ≡ false)
      × (request.messages ≢ [])
      × (all is_known request.messages ≡ true))
message_params-ok_iff_example = message_params-ok_iff 1 some cfg request (pos 0)
