-- ===== src/Anthropic/Params/Breakpoints/Limit.antt =====
-- internal/provider/anthropic/service.go: a whole request has at most four cache breakpoints.
use Prim.Native.Nat.{◌≤◌, min}
use claude_oauth_proxy.Base.{
  ℕ, ℤ, suc, ◌≡◌, refl, String, Bool, Option, List, [], ◌∷◌, arith, count, length, trim_space, ◌==◌,
}
use claude_oauth_proxy.Core.{ok}
use claude_oauth_proxy.Openai.{ChatCompletionRequest, ChatCompletionMessage, Tool}
use claude_oauth_proxy.Anthropic.Types.{TextBlock, MessageNewParams, Config}
use claude_oauth_proxy.Anthropic.Params.{
  user_indices, cache_set, message_params, bill, assemble, convert_tools, mark_last, think,
}
use claude_oauth_proxy.Anthropic.Params.Outcome.{message_params-IsBuilt}
use claude_oauth_proxy.Anthropic.Params.Breakpoints.{
  message_breakpoints, text_cached, tool_cached, breakpoints, convert_from-breakpoints,
  hits-last_two, cache_set-eq-last_two, user_indices-IsRising, mark_last-cached,
  convert_tools-cached, here,
}

abbrev pub is_user : ChatCompletionMessage → Bool
is_user m = trim_space m.role == "user"

length-user_indices :
    (i : ℕ) (ms : List ChatCompletionMessage) → length (user_indices i ms) ≡ count is_user ms
unfolding user_indices
length-user_indices i [] = refl
length-user_indices i (m ∷ ms) = ground (arith, length-user_indices (suc i) ms)

here-users :
    (ms : List ChatCompletionMessage)
    → here (cache_set (user_indices 0 ms)) 0 ms ≡ min 2 (count is_user ms)
unfolding here
here-users ms = rw (
  cache_set-eq-last_two,
  hits-last_two (user_indices 0 ms) (user_indices-IsRising 0 ms),
  length-user_indices,
)

bill-cached : (cfg : Config) (turn : ℤ) → count text_cached (bill cfg turn).0 ≡ 0
unfolding bill
bill-cached cfg turn = ground arith

-- What the counts of breakpoints of a request are.
pub record AreMarked {F S : Type 0} (request : ChatCompletionRequest F) (p : MessageNewParams F S)
    : Type 0 where
  pub on_users : message_breakpoints p.messages ≡ min 2 (count is_user request.messages)
  pub on_system : count text_cached p.system ≡ min 1 (length p.system)
  pub on_tools : count tool_cached p.tools ≤ 1
  pub in_all : breakpoints p ≤ 4

module _ {F S : Type 0} (one : F) (parse_schema : String → Option S) (cfg : Config)
    (request : ChatCompletionRequest F) where
  tools-cached :
      (tools : List Tool)
      → count tool_cached (convert_tools parse_schema (length tools) 0 tools) ≤ 1
  unfolding convert_tools
  tools-cached [] = omega arith
  tools-cached (t ∷ ts) =
      convert_tools-cached parse_schema (length (t ∷ ts)) 0 (t ∷ ts) (omega arith)

  length-mark_last : (bs : List TextBlock) → length (mark_last bs) ≡ length bs
  unfolding mark_last
  length-mark_last [] = refl
  length-mark_last (b ∷ []) = refl
  length-mark_last (b ∷ c ∷ bs) = omega (arith, length-mark_last (c ∷ bs))

  -- When a request is built, its messages carry two cache breakpoints, or as many as there are user
  -- messages if these are fewer, its system blocks carry one where there is any, its tools at most
  -- one, and all together at most the four that the API allows.
  pub message_params-AreMarked :
      (turn turn' : ℤ) (p : MessageNewParams F S)
      → message_params one parse_schema cfg request turn ≡ (ok p, turn')
      → AreMarked request p
  unfolding assemble think
  message_params-AreMarked turn turn' p h =
      let b = message_params-IsBuilt one parse_schema cfg request turn turn' p h in
      let c = b.converted in
      let counts = convert_from-breakpoints _ 0 request.messages _ c b.rounds in
      let system = mark_last-cached c.system (omega (arith, counts, bill-cached cfg turn)) in
      ground (
        arith,
        counts,
        system,
        here-users request.messages,
        tools-cached request.tools,
        length-mark_last c.system,
        b.result,
      )
