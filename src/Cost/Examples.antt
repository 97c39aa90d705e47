-- ===== src/Cost/Examples.antt =====
-- internal/cost: prices and costs with integers for the floating-point numbers.
use claude_oauth_proxy.Cost.Tracking.{PricingSource}
use claude_oauth_proxy.Base.{
  put, get, suc, ℕ, ℤ, pos, ◌+ℤ◌, ◌*ℤ◌, ◌==◌, ◌≡◌, inr, refl, none, some, [], ◌∷◌, if◌then◌else◌,
}
use claude_oauth_proxy.Tokens.{is_zero}
use claude_oauth_proxy.Openai.{Usage, usage_zero}
use claude_oauth_proxy.Cost.Pricing.{Floats, ModelPricing, calculate, charge}
use claude_oauth_proxy.Cost.OpenRouter.{
  fetch_prices, PricingClient, OpenRouterSource, new_open_router_source, normalize_model_version,
  lookup, ensure_fetched,
}
use claude_oauth_proxy.Cost.OpenRouter.Laws.{
  lookups, IsPriced, new-IsPriced, lookup_once, lookup-IsPriced,
}

-- Numbers of thousandths of a cent, say, with whole factors.
abbrev pub whole : Floats ℤ
whole = record {
  is_zero = is_zero;
  of_int = λ n. n;
  add = λ a b. a +ℤ b;
  mul = λ a b. a *ℤ b;
  parse = λ s. if s == "3" then some (pos 3) else if s == "15" then some (pos 15) else none;
  cache_write_multiplier = pos 2;
  cache_read_multiplier = pos 1;
  tokens_per_million = pos 1000000;
}

normalize_runs : normalize_model_version "claude-3-5-sonnet-20241022" ≡ "claude-3.5-sonnet-20241022"
unfolding normalize_model_version
normalize_runs = refl

-- A digit between two hyphens stands in one match only.
normalize_overlap_runs : normalize_model_version "claude-1-2-3" ≡ "claude-1.2-3"
unfolding normalize_model_version
normalize_overlap_runs = refl

abbrev pub usage : Usage ℤ
usage = record usage_zero {
  prompt_tokens = pos 100;
  completion_tokens = pos 7;
  cache_creation_input_tokens = pos 20;
  cache_read_input_tokens = pos 30;
}

abbrev price : ModelPricing ℤ
price = record { input_per_token = pos 3; output_per_token = pos 15 }

-- A list of models; the state counts the requests.
abbrev client : PricingClient ℕ
client = record {
  refused = λ url. none;
  send = λ url n. (inr (200, "[]"), suc n);
  decode = λ body. inr (
      record { id = "anthropic/claude-opus-4.6"; prompt = "3"; completion = "15" }
      ∷ record { id = "free"; prompt = "x"; completion = "" }
      ∷ []);
}

abbrev source : OpenRouterSource ℤ
source = new_open_router_source ""

lookup_once_example :
    lookups client whole ("gpt" ∷ "claude-opus-4-6" ∷ []) source 0
    ≡ ensure_fetched client whole source 0
lookup_once_example = lookup_once client whole "gpt" ("claude-opus-4-6" ∷ []) source 0

source-IsPriced : IsPriced whole source.prices
unfolding new_open_router_source
source-IsPriced = new-IsPriced whole

lookup-IsPriced_example :
    IsPriced whole (lookup client whole "claude-opus-4-6" source 0).1.prices
    × (calculate whole "m" usage price ≡ some (charge whole "m" usage price))
unfolding lookup get new_open_router_source fetch_prices put normalize_model_version
lookup-IsPriced_example =
    lookup-IsPriced client whole "claude-opus-4-6" "m" source 0 usage price source-IsPriced refl

-- A provider that answers with that usage, and a source of prices.
abbrev pub prices : PricingSource (OpenRouterSource ℤ × ℕ) ℤ
prices = record {
  lookup = λ model state.
      let (s, n) = state in let (p, s', n') = lookup client whole model s n in (p, (s', n'));
  cost_text = λ c. "0.000000";
}
