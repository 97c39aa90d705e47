-- ===== src/Cost/OpenRouter.antt =====
-- internal/cost/openrouter.go: prices that are fetched once, and looked up.
pub mod Laws
use Prim.Native.String
use claude_oauth_proxy.Base.{
  ℕ, String, code, ◌⧺◌, ◌==◌, Bool, true, false, not, ◌&&◌, Option, ◌⊎◌, inl, inr, none, some, List,
  [], ◌∷◌, Dict, get, put, if◌then◌else◌, nat_eq, leb, length, is_blank, show_ℕ,
}
use claude_oauth_proxy.Cost.Pricing.{Floats, ModelPricing, is_free}

pub record OpenRouterModel : Type 0 where
  pub id : String
  pub prompt : String
  pub completion : String

-- package net/http over the state `W`: building the GET request fails with `refused`, sending it gives
-- a status and a body or an error; `decode` is the decoding of the body into `openRouterResponse`.
pub record PricingClient (W : Type 0) : Type 0 where
  pub refused : String → Option String
  pub send : String → W → (String ⊎ (ℕ × String)) × W
  pub decode : String → String ⊎ List OpenRouterModel

pub record OpenRouterSource (F : Type 0) : Type 0 where
  pub prices : Dict (ModelPricing F)
  pub url : String
  pub fetched : Bool
  pub fetch_err : Option String

unfoldable pub new_open_router_source : {F : Type 0} → String → OpenRouterSource F
new_open_router_source url = record {
  prices = [];
  url = if is_blank url then "https://openrouter.ai/api/v1/models" else url;
  fetched = false;
  fetch_err = none;
}

-- `versionHyphenRe.ReplaceAllString`: from left to right, and a digit that stands in one match is in
-- no other.
abbrev pub is_digit : ℕ → Bool
is_digit c = leb b'0' c && leb c b'9'

unfoldable pub normalize_model_version : String → String
normalize_model_version String.[] = ""
normalize_model_version (String.◌∷◌ a String.[]) = String.◌∷◌ a ""
normalize_model_version (String.◌∷◌ a (String.◌∷◌ b String.[])) = String.◌∷◌ a (String.◌∷◌ b "")
normalize_model_version (String.◌∷◌ a (String.◌∷◌ b (String.◌∷◌ c s))) =
    elim (is_digit (code a) && nat_eq (code b) b'-' && is_digit (code c)) [
      | true ↦ String.◌∷◌ a (String.◌∷◌ "." (String.◌∷◌ c (normalize_model_version s)))
      | false ↦ String.◌∷◌ a (normalize_model_version (String.◌∷◌ b (String.◌∷◌ c s)))
    ]

module _ {F : Type 0} (f : Floats F) where
  -- One round of the loop over the models: a price that cannot be parsed or is zero twice is left out.
  abbrev pub priced : String → Option F → Option F → Dict (ModelPricing F) → Dict (ModelPricing F)
  priced id (some input) (some output) prices =
      let price : ModelPricing F = record { input_per_token = input; output_per_token = output } in
      if is_free f price then prices else put id price prices
  priced id _ _ prices = prices

  unfoldable pub collect : List OpenRouterModel → Dict (ModelPricing F) → Dict (ModelPricing F)
  collect [] prices = prices
  collect (m ∷ models) prices =
      collect models (priced m.id (f.parse m.prompt) (f.parse m.completion) prices)

module _ {W F : Type 0} (client : PricingClient W) (f : Floats F) where
  abbrev pub decoded : String ⊎ List OpenRouterModel → String ⊎ Dict (ModelPricing F)
  decoded (inl e) = inl ("decode openrouter response: " ⧺ e)
  decoded (inr models) = inr (collect f models [])

  abbrev pub received : String ⊎ (ℕ × String) → String ⊎ Dict (ModelPricing F)
  received (inl e) = inl ("fetch openrouter models: " ⧺ e)
  received (inr (status, body)) =
      if not (nat_eq status 200)
      then inl ("openrouter returned status " ⧺ show_ℕ status)
      else decoded (client.decode body)

  unfoldable pub fetch_prices : String → W → (String ⊎ Dict (ModelPricing F)) × W
  unfolding collect
  fetch_prices url w = elim (client.refused url) [
    | some e ↦ (inl ("build openrouter request: " ⧺ e), w)
    | none ↦ let (r, after) = client.send url w in (received r, after)
  ]

-- What a fetch leaves behind: the prices of a failed one are those of before.
module _ {F : Type 0} where
  abbrev pub settled : OpenRouterSource F → String ⊎ Dict (ModelPricing F) → OpenRouterSource F
  settled s (inl e) = record s { fetched = true; fetch_err = some e }
  settled s (inr prices) = record s { prices = prices; fetched = true; fetch_err = none }

  abbrev pub error_of : String ⊎ Dict (ModelPricing F) → Option String
  error_of (inl e) = some e
  error_of (inr prices) = none

module _ {W F : Type 0} (client : PricingClient W) (f : Floats F) where
  -- `Fetch`, with its error if there is one.
  unfoldable pub fetch : OpenRouterSource F → W → Option String × OpenRouterSource F × W
  fetch s w = let (r, after) = fetch_prices client f s.url w in (error_of r, settled s r, after)

  -- The first part of `Lookup`: the prices are fetched when they have not been.
  unfoldable pub ensure_fetched : OpenRouterSource F → W → OpenRouterSource F × W
  ensure_fetched s w =
      let (r, after) = fetch_prices client f s.url w in
      if s.fetched then (s, w) else (settled s r, after)

-- The second part: the names that are tried.
abbrev pub or_next : {A : Type 0} → Option A → Option A → Option A
or_next (some a) next = some a
or_next none next = next

module _ {F : Type 0} where
  unfoldable pub find : String → Dict (ModelPricing F) → Option (ModelPricing F)
  find model prices =
      let normalized = normalize_model_version model in
      or_next (get model prices) (
        or_next (get ("anthropic/" ⧺ model) prices) (
          if not (normalized == model)
          then or_next (get normalized prices) (get ("anthropic/" ⧺ normalized) prices)
          else none))

  unfoldable pub model_count : OpenRouterSource F → ℕ
  model_count s = length s.prices

unfoldable pub lookup :
    {W F : Type 0}
    → PricingClient W
    → Floats F
    → String
    → OpenRouterSource F
    → W
    → Option (ModelPricing F) × OpenRouterSource F × W
unfolding ensure_fetched find
lookup client f model s w =
    let (s', w') = ensure_fetched client f s w in (find model s'.prices, s', w')
