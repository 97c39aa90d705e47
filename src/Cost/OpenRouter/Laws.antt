-- ===== src/Cost/OpenRouter/Laws.antt =====
-- internal/cost/openrouter.go: prices are fetched once, and are never free.
use claude_oauth_proxy.Base.{
  nat_eq, not, show_ℕ, if◌then◌else◌, ◌⧺◌, ℕ, sym, ◌≡◌, ◌⊎◌, inl, inr, refl, ◌∙◌, String, ◌==◌,
  Bool, true, false, Option, none, some, List, [], ◌∷◌, Dict, get, put, get-put, arith, Bool-cases,
  if_true, if_false,
}
use claude_oauth_proxy.Openai.{Usage}
use claude_oauth_proxy.Cost.Pricing.{Floats, ModelPricing, is_free, calculate, charge}
use claude_oauth_proxy.Cost.OpenRouter.{
  normalize_model_version, OpenRouterModel, PricingClient, OpenRouterSource, collect, priced,
  fetch_prices, received, decoded, settled, ensure_fetched, or_next, find, lookup,
}

module _ {W F : Type 0} (client : PricingClient W) (f : Floats F) where
  -- One lookup after the other, with what they leave behind.
  abbrev pub lookups : List String → OpenRouterSource F → W → OpenRouterSource F × W
  lookups [] s w = (s, w)
  lookups (model ∷ models) s w =
      let (price, s', w') = lookup client f model s w in lookups models s' w'

  kept : (s : OpenRouterSource F) (w : W) → s.fetched ≡ true → ensure_fetched client f s w ≡ (s, w)
  unfolding ensure_fetched
  kept s w h = if_true {A = OpenRouterSource F × W} s.fetched (s, w) _ h

  settled_once :
      (models : List String) (s : OpenRouterSource F) (w : W)
      → s.fetched ≡ true
      → lookups models s w ≡ (s, w)
  unfolding lookup
  settled_once [] s w h = refl
  settled_once (model ∷ models) s w h = rw (kept s w h) (settled_once models s w h)

  ensure_fetched-fetched :
      (s : OpenRouterSource F) (w : W) → (ensure_fetched client f s w).0.fetched ≡ true
  unfolding ensure_fetched
  ensure_fetched-fetched s w = ground arith

  -- However often prices are looked up, and of whatever models, the source and what it reaches are
  -- left as by the fetch of the first lookup: there is at most one request, even after an error.
  pub lookup_once :
      (model : String) (models : List String) (s : OpenRouterSource F) (w : W)
      → lookups (model ∷ models) s w ≡ ensure_fetched client f s w
  unfolding lookup
  lookup_once model models s w =
      let (s', w') = ensure_fetched client f s w in
      settled_once models s' w' (ensure_fetched-fetched s w)

module _ {F : Type 0} (f : Floats F) where
  -- No price is zero twice.
  abbrev pub IsPriced : Dict (ModelPricing F) → Type 0
  IsPriced prices =
      (model : String) (p : ModelPricing F) → get model prices ≡ some p → is_free f p ≡ false

  put-IsPriced :
      (id : String) (price : ModelPricing F) (prices : Dict (ModelPricing F))
      → is_free f price ≡ false
      → IsPriced prices
      → IsPriced (put id price prices)
  put-IsPriced id price prices paid h model p e = elim (Bool-cases (id == model)) [
    | inl same ↦ ground (arith, get-put id model price prices)
    | inr differs ↦ h model p (
        sym (
          get-put id model price prices
          ∙ if_false (id == model) (some price) (get model prices) differs)
        ∙ e)
  ]

  pub new-IsPriced : IsPriced []
  unfolding get
  new-IsPriced model p e = cc

  priced-IsPriced :
      (id : String) (input output : Option F) (prices : Dict (ModelPricing F))
      → IsPriced prices
      → IsPriced (priced f id input output prices)
  priced-IsPriced id none output prices h = h
  priced-IsPriced id (some input) none prices h = h
  priced-IsPriced id (some input) (some output) prices h = go _ refl
    where
      price : ModelPricing F
      price = record { input_per_token = input; output_per_token = output }

      go :
          (free : Bool)
          → is_free f price ≡ free
          → IsPriced (if free then prices else put id price prices)
      go true e = h
      go false e = put-IsPriced id price prices e h

  collect-IsPriced :
      (models : List OpenRouterModel) (prices : Dict (ModelPricing F))
      → IsPriced prices
      → IsPriced (collect f models prices)
  unfolding collect
  collect-IsPriced [] prices h = h
  collect-IsPriced (m ∷ models) prices h =
      collect-IsPriced models _
        (priced-IsPriced m.id (f.parse m.prompt) (f.parse m.completion) prices h)

  -- A price that is not zero twice, if there is one.
  abbrev Paid : Option (ModelPricing F) → Type 0
  Paid o = (p : ModelPricing F) → o ≡ some p → is_free f p ≡ false

  or_next-Paid : (o next : Option (ModelPricing F)) → Paid o → Paid next → Paid (or_next o next)
  or_next-Paid (some b) next h k = h
  or_next-Paid none next h k = k

  if_none-Paid : (b : Bool) (o : Option (ModelPricing F)) → Paid o → Paid (if b then o else none)
  if_none-Paid true o h = h
  if_none-Paid false o h = λ p e. cc

  pub find-Paid :
      (model : String) (prices : Dict (ModelPricing F)) → IsPriced prices → Paid (find model prices)
  unfolding find
  find-Paid model prices h =
      let normalized = normalize_model_version model in
      or_next-Paid (get model prices) _ (h model) (
        or_next-Paid (get ("anthropic/" ⧺ model) prices) _ (h ("anthropic/" ⧺ model)) (
          if_none-Paid (not (normalized == model)) _ (
            or_next-Paid (get normalized prices) _ (h normalized) (h ("anthropic/" ⧺ normalized)))))

module _ {W F : Type 0} (client : PricingClient W) (f : Floats F) where
  -- The prices that a fetch gives, if it gives any.
  abbrev Fetched : String ⊎ Dict (ModelPricing F) → Type 0
  Fetched (inl e) = Unit
  Fetched (inr prices) = IsPriced f prices

  decoded-Fetched : (r : String ⊎ List OpenRouterModel) → Fetched (decoded client f r)
  decoded-Fetched (inl e) = tt
  decoded-Fetched (inr models) = collect-IsPriced f models [] (new-IsPriced f)

  received-Fetched : (r : String ⊎ (ℕ × String)) → Fetched (received client f r)
  received-Fetched (inl e) = tt
  received-Fetched (inr (status, body)) = go (not (nat_eq status 200))
    where
      go :
          (b : Bool)
          → Fetched (
              if b
              then inl ("openrouter returned status " ⧺ show_ℕ status)
              else decoded client f (client.decode body))
      go true = tt
      go false = decoded-Fetched (client.decode body)

  fetch_prices-Fetched : (url : String) (w : W) → Fetched (fetch_prices client f url w).0
  unfolding fetch_prices
  fetch_prices-Fetched url w = go (client.refused url)
    where
      go :
          (o : Option String)
          → Fetched
              (elim o as (λ _. (String ⊎ Dict (ModelPricing F)) × W) [
                | some e ↦ (inl ("build openrouter request: " ⧺ e), w)
                | none ↦ let (r, after) = client.send url w in (received client f r, after)
              ]).0
      go (some e) = tt
      go none = received-Fetched (client.send url w).0

  settled-IsPriced :
      (s : OpenRouterSource F) (r : String ⊎ Dict (ModelPricing F))
      → IsPriced f s.prices
      → Fetched r
      → IsPriced f (settled s r).prices
  settled-IsPriced s (inl e) h k = h
  settled-IsPriced s (inr prices) h k = k

  ensure_fetched-IsPriced :
      (s : OpenRouterSource F) (w : W)
      → IsPriced f s.prices
      → IsPriced f (ensure_fetched client f s w).0.prices
  unfolding ensure_fetched
  ensure_fetched-IsPriced s w h = go s.fetched
    where
      rest : OpenRouterSource F × W
      rest = (settled s (fetch_prices client f s.url w).0, (fetch_prices client f s.url w).1)

      go : (b : Bool) → IsPriced f (if b then (s, w) else rest).0.prices
      go true = h
      go false = settled-IsPriced s _ h (fetch_prices-Fetched s.url w)

  -- From a source without prices that are zero twice, as a new one is: after a lookup it has none
  -- either, and with a price that a lookup finds the cost of any response is calculated.
  pub lookup-IsPriced :
      (model name : String) (s : OpenRouterSource F) (w : W) (u : Usage F) (p : ModelPricing F)
      → IsPriced f s.prices
      → (lookup client f model s w).0 ≡ some p
      → IsPriced f (lookup client f model s w).1.prices
        × (calculate f name u p ≡ some (charge f name u p))
  unfolding lookup calculate
  lookup-IsPriced model name s w u p h e =
      let kept = ensure_fetched-IsPriced s w h in
      (kept, if_false _ _ _ (find-Paid f model _ kept p e))
