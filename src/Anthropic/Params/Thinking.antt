-- ===== src/Anthropic/Params/Thinking.antt =====
-- internal/provider/anthropic/service.go: the token limits and extended thinking of a request.
use claude_oauth_proxy.Base.{
  inr, inl, ◌≤◌, ◌⊎◌, ℕ, ℤ, pos, ◌≡◌, ◌<ℤ◌, ◌≤ℤ◌, refl, String, Option, some, none, arith,
  trim_space,
}
use claude_oauth_proxy.Core.{ok}
use claude_oauth_proxy.Openai.{ChatCompletionRequest}
use claude_oauth_proxy.Anthropic.Types.{MessageNewParams, Config}
use claude_oauth_proxy.Anthropic.Params.{message_params, assemble, think, budget_of}
use claude_oauth_proxy.Anthropic.Params.Outcome.{message_params-IsBuilt}

-- What the API asks of the limits: something may be generated, and with thinking on the budget is at
-- least 1024, leaves room below the maximum, and the temperature is 1.
pub record IsRoomy {F S : Type 0} (one : F) (p : MessageNewParams F S) : Type 0 where
  pub budget : ℤ
  pub on : p.thinking ≡ some budget
  pub enough : pos 1024 ≤ℤ budget
  pub leaves_room : budget <ℤ p.max_tokens
  pub at_one : p.temperature ≡ some one

pub record IsWithinLimits {F S : Type 0} (one : F) (p : MessageNewParams F S) : Type 0 where
  pub generates : pos 0 <ℤ p.max_tokens
  pub thinks : (p.thinking ≡ none) ⊎ IsRoomy one p

budget_of-range : (effort : String) → (budget_of effort ≡ 0) ⊎ (1024 ≤ budget_of effort)
unfolding budget_of
budget_of-range effort = ground arith

module _ {F S : Type 0} (one : F) where
  think-IsWithinLimits :
      (n : ℕ) (p : MessageNewParams F S)
      → (n ≡ 0) ⊎ (1024 ≤ n)
      → pos 0 <ℤ p.max_tokens
      → p.thinking ≡ none
      → IsWithinLimits one (think one n p)
  unfolding think
  think-IsWithinLimits n p (inl zero) h off = record {
    generates = ground arith;
    thinks = inl (ground arith);
  }
  think-IsWithinLimits n p (inr more) h off = record {
    generates = ground arith;
    thinks = inr (record {
      budget = pos n;
      on = ground arith;
      enough = ground arith;
      leaves_room = ground arith;
      at_one = ground arith;
    });
  }

  -- Every request that is built asks for at least one token, and with extended thinking on the
  -- budget is at least 1024, is below the maximum of tokens, and the temperature is 1, whatever
  -- maximum the client asked for.
  pub message_params-IsWithinLimits :
      (parse_schema : String → Option S) (cfg : Config) (request : ChatCompletionRequest F)
      (turn turn' : ℤ) (p : MessageNewParams F S)
      → message_params one parse_schema cfg request turn ≡ (ok p, turn')
      → IsWithinLimits one p
  unfolding assemble
  message_params-IsWithinLimits parse_schema cfg request turn turn' p h =
      let b = message_params-IsBuilt one parse_schema cfg request turn turn' p h in
      rw b.result (
        think-IsWithinLimits _ _ (budget_of-range (trim_space request.reasoning_effort))
          (ground arith) refl)
