-- ===== src/Cost/Pricing/Laws.antt =====
-- internal/cost/cost.go: what the tokens of a response are charged as.
use Prim.Native.Nat.{◌-◌}
use claude_oauth_proxy.Base.{
  ℕ, pos, ◌+◌, ◌<◌, ◌^◌, ◌≡◌, refl, ◌-ℤ◌, sub64, wrap64, String, false, some, arith,
}
use claude_oauth_proxy.Openai.{Usage, CostDetails}
use claude_oauth_proxy.Cost.Pricing.{
  Floats, ModelPricing, regular_input, is_free, charge, calculate,
}

module _ {F : Type 0} (u : Usage F) (p w r : ℕ) (prompt : u.prompt_tokens ≡ pos p)
    (written : u.cache_creation_input_tokens ≡ pos w) (read : u.cache_read_input_tokens ≡ pos r)
    (small : p < 2 ^ 63) (cached : w + r < 2 ^ 63) where
  regular_input_exact : regular_input u ≡ pos (p - (w + r))
  unfolding regular_input sub64 ◌-ℤ◌ wrap64
  regular_input_exact = rw (prompt, written, read) (ground arith)

  -- While the counts are below 2^63, a response of a model with a price is charged for the tokens of
  -- the prompt that the cache has neither written nor read, none if it claims to have handled more,
  -- and for the written and the read ones apart.
  pub calculate_split :
      (f : Floats F) (model : String) (price : ModelPricing F)
      → is_free f price ≡ false
      → (c : CostDetails F) × (calculate f model u price ≡ some c)
        × (c.input_cost ≡ f.mul (f.of_int (pos (p - (w + r)))) price.input_per_token)
        × (c.cache_write_cost
            ≡ f.mul (f.mul (f.of_int (pos w)) price.input_per_token) f.cache_write_multiplier)
        × (c.cache_read_cost
            ≡ f.mul (f.mul (f.of_int (pos r)) price.input_per_token) f.cache_read_multiplier)
        × (c.total_cost
            ≡ f.add (f.add (f.add c.input_cost c.output_cost) c.cache_write_cost) c.cache_read_cost)
  unfolding calculate
  calculate_split f model price paid = (
    charge f model u price,
    rw paid refl,
    rw regular_input_exact refl,
    rw written refl,
    rw read refl,
    refl,
  )
