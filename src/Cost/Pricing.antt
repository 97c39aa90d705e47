-- ===== src/Cost/Pricing.antt =====
-- internal/cost/cost.go: `Calculate`.
pub mod Laws
use claude_oauth_proxy.Base.{
  ℤ, pos, sub64, ltb_ℤ, String, Bool, ◌&&◌, Option, none, some, if◌then◌else◌,
}
use claude_oauth_proxy.Openai.{Usage, CostDetails}

-- The operations of float64 that the program uses, with its three constants.
pub record Floats (F : Type 0) : Type 0 where
  pub is_zero : F → Bool
  pub of_int : ℤ → F
  pub add : F → F → F
  pub mul : F → F → F
  pub parse : String → Option F
  pub cache_write_multiplier : F
  pub cache_read_multiplier : F
  pub tokens_per_million : F

pub record ModelPricing (F : Type 0) : Type 0 where
  pub input_per_token : F
  pub output_per_token : F

module _ {F : Type 0} where
  -- The prompt's tokens that no cache has written or read, in int64.
  unfoldable pub regular_input : Usage F → ℤ
  regular_input u =
      let n =
        sub64 (sub64 u.prompt_tokens u.cache_creation_input_tokens) u.cache_read_input_tokens in
      if ltb_ℤ n (pos 0) then pos 0 else n

  abbrev pub is_free : Floats F → ModelPricing F → Bool
  is_free f p = f.is_zero p.input_per_token && f.is_zero p.output_per_token

  abbrev pub charge : Floats F → String → Usage F → ModelPricing F → CostDetails F
  charge f model u p =
      let input = f.mul (f.of_int (regular_input u)) p.input_per_token in
      let output = f.mul (f.of_int u.completion_tokens) p.output_per_token in
      let write =
        f.mul (f.mul (f.of_int u.cache_creation_input_tokens) p.input_per_token)
          f.cache_write_multiplier in
      let read =
        f.mul (f.mul (f.of_int u.cache_read_input_tokens) p.input_per_token)
          f.cache_read_multiplier in
      record {
        input_cost = input;
        output_cost = output;
        cache_write_cost = write;
        cache_read_cost = read;
        total_cost = f.add (f.add (f.add input output) write) read;
        currency = "USD";
        model = model;
        input_price_per_1m = f.mul p.input_per_token f.tokens_per_million;
        output_price_per_1m = f.mul p.output_per_token f.tokens_per_million;
      }

  unfoldable pub calculate : Floats F → String → Usage F → ModelPricing F → Option (CostDetails F)
  unfolding regular_input
  calculate f model u p = if is_free f p then none else some (charge f model u p)
