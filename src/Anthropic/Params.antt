-- ===== src/Anthropic/Params.antt =====
-- internal/provider/anthropic/service.go: `messageParams`, from an OpenAI request to an Anthropic one.
mod Sprintf
mod Messages
mod Tools
mod Rounds
pub mod Breakpoints
pub mod Outcome
pub mod Accepts
pub mod Thinking
use claude_oauth_proxy.Base.{
  ◌+◌, ℕ, ℤ, pos, add64, leb_ℤ, ltb_ℤ, String, Bool, true, false, Option, none, some, List, [], ◌∷◌,
  ◌++◌, ◌⧺◌, if◌then◌else◌, is_blank, trim_space, show_ℤ, lowers_to, leb, nat_eq, length,
}
use claude_oauth_proxy.Core.{Error, new_error, Result, ok, err, panic, Action}
use claude_oauth_proxy.Openai.{ChatCompletionRequest, ChatCompletionMessage, Tool}
use claude_oauth_proxy.Anthropic.Types.{
  TextBlock, MessageParam, ToolParam, MessageNewParams, Config,
}
unfoldable pub use Sprintf.*
unfoldable pub use Messages.*
unfoldable pub use Tools.*

abbrev pub bad_request : String → String → Error
bad_request code message = new_error code 400 message none

-- The billing header's block, and the turn counter after it.
unfoldable pub bill : Config → ℤ → List TextBlock × ℤ
bill cfg turn = if is_blank cfg.billing_header then ([], turn) else (
  record {
    text = sprintf cfg.billing_header (cfg.cc_version ⧺ "." ⧺ show_ℤ (add64 turn (pos 1)));
    cached = false;
  }
      ∷ [],
  add64 turn (pos 1),
)

-- The last system block gets a breakpoint.
unfoldable pub mark_last : List TextBlock → List TextBlock
mark_last [] = []
mark_last (b ∷ []) = record b { cached = true } ∷ []
mark_last (b ∷ c ∷ bs) = b ∷ mark_last (c ∷ bs)

-- The budget of a reasoning effort; 0 is none.
unfoldable pub budget_of : String → ℕ
budget_of effort =
    if lowers_to effort "low"
    then 1024
    else if lowers_to effort "medium"
    then 8192
    else if lowers_to effort "high"
    then 32768
    else 0

-- Extended thinking with a budget; with none the parameters are left alone.
unfoldable pub think : {F S : Type 0} → F → ℕ → MessageNewParams F S → MessageNewParams F S
think one budget p = if nat_eq budget 0 then p else record p {
  max_tokens = if leb_ℤ p.max_tokens (pos budget) then pos (budget + 4096) else p.max_tokens;
  thinking = some (pos budget);
  temperature = some one;
}

abbrev pub max_tokens_of : ℤ → ℤ
max_tokens_of n = if leb_ℤ n (pos 0) then pos 1024 else n

module _ {F S : Type 0} (one : F) (parse_schema : String → Option S) where
  -- The parameters, once the messages are converted.
  unfoldable pub assemble : ChatCompletionRequest F → Converted → MessageNewParams F S
  assemble request c = think one (budget_of (trim_space request.reasoning_effort)) (record {
    model = request.model;
    max_tokens = max_tokens_of request.max_tokens;
    messages = c.messages;
    temperature = request.temperature;
    top_p = request.top_p;
    stop_sequences = request.stop;
    system = mark_last c.system;
    tools = convert_tools parse_schema (length request.tools) 0 request.tools;
    thinking = none;
  })

  finish : ChatCompletionRequest F → Result Error Converted → Result Error (MessageNewParams F S)
  finish request (ok c) = ok (assemble request c)
  finish request (err e) = err e
  finish request panic = panic

  -- `messageParams`; the state is the turn counter.
  unfoldable pub message_params :
      Config → ChatCompletionRequest F → Action ℤ Error (MessageNewParams F S)
  unfolding bill mark_last budget_of think assemble finish convert_from cache_set user_indices
      convert_tools
  message_params cfg request turn =
      if is_blank request.model
      then (err (bad_request "MODEL_REQUIRED" "model is required"), turn)
      else if nat_eq (length request.messages) 0
      then (err (bad_request "MESSAGES_REQUIRED" "messages are required"), turn)
      else let (blocks, turn') = bill cfg turn in
        (
          finish request (
              convert_from (cache_set (user_indices 0 request.messages)) 0 request.messages
                (record { system = blocks; messages = [] })),
          turn',
        )
