-- ===== src/Cost/Tracking.antt =====
-- internal/cost/middleware.go: the service that adds the cost to a response and to the last chunk.
pub mod Laws
use claude_oauth_proxy.Base.{String, Option, none, some, List, [], ◌∷◌, ◌++◌}
use claude_oauth_proxy.Core.{Error, Result, ok, err, panic, Action}
use claude_oauth_proxy.Openai.{
  Usage, CostDetails, ChatCompletionRequest, ChatCompletionResponse, ChatCompletionChunk,
}
use claude_oauth_proxy.Anthropic.Stream.{Pulled, got, eof, failed}
use claude_oauth_proxy.Logging.{Entry, entry, text}
use claude_oauth_proxy.Provider.{ProviderService}
use claude_oauth_proxy.Cost.Pricing.{ModelPricing, calculate, Floats}

-- What the service works on: the state of the service behind it and of the pricing source, and the log.
pub record Tracked (S P : Type 0) : Type 0 where
  pub world : S
  pub pricing : P
  pub logs : List Entry

-- `PricingSource`, over its own state `P`, and "%.6f".
pub record PricingSource (P F : Type 0) : Type 0 where
  pub lookup : String → P → Option (ModelPricing F) × P
  pub cost_text : F → String

-- `costTrackingStream`
pub record CostTrackingStream (C : Type 0) : Type 0 where
  pub inner : C
  pub model : String

module _ {P F : Type 0} (f : Floats F) (source : PricingSource P F) where
  -- `logCost`, and `logCostFields`.
  abbrev pub cost_entries : String → Option (CostDetails F) → List Entry
  cost_entries model none = []
  cost_entries model (some c) =
      entry "info" "cost.tracked" (
        ("model", text model)
        ∷ ("input_cost", text (source.cost_text c.input_cost))
        ∷ ("output_cost", text (source.cost_text c.output_cost))
        ∷ ("cache_write_cost", text (source.cost_text c.cache_write_cost))
        ∷ ("cache_read_cost", text (source.cost_text c.cache_read_cost))
        ∷ ("total_cost", text (source.cost_text c.total_cost))
        ∷ ("currency", text c.currency)
        ∷ [])
      ∷ []

  abbrev pub not_found_entry : String → Entry
  not_found_entry model = entry "info" "cost.pricing_not_found" (("model", text model) ∷ [])

  -- A usage with its cost, where the model has a price, and what is logged.
  abbrev pub with_price :
      String → Usage F → List Entry → Option (ModelPricing F) → Usage F × List Entry
  with_price model u logs none = (u, logs ++ not_found_entry model ∷ [])
  with_price model u logs (some p) =
      let cost = calculate f model u p in
      (record u { cost = cost }, logs ++ cost_entries model cost)

-- A call of the service behind.
abbrev pub through : {S P A : Type 0} → Action S Error A → Action (Tracked S P) Error A
through run t = let (r, s) = run t.world in (r, record t { world = s })

module _ {S P F : Type 0} (f : Floats F) (source : PricingSource P F) where
  abbrev pub priced : String → Usage F → Tracked S P → Usage F × Tracked S P
  priced model u t =
      let (price, pricing) = source.lookup model t.pricing in
      let (u', logs) = with_price f source model u t.logs price in
      (u', record t { pricing = pricing; logs = logs })

  -- The response, with the cost of its usage.
  unfoldable pub track_response :
      ChatCompletionResponse F → Tracked S P → Result Error (ChatCompletionResponse F) × Tracked S P
  track_response r t = let (u, t') = priced r.model r.usage t in (ok (record r { usage = u }), t')

  abbrev pub chunk_with :
      String → ChatCompletionChunk F → Option (Usage F) → Tracked S P → Pulled F × Tracked S P
  chunk_with model chunk none t = (got chunk, t)
  chunk_with model chunk (some u) t =
      let (u', t') = priced model u t in (got (record chunk { usage = some u' }), t')

  unfoldable pub track_chunk : String → Pulled F → Tracked S P → Pulled F × Tracked S P
  track_chunk model (got chunk) t = chunk_with model chunk chunk.usage t
  track_chunk model eof t = (eof, t)
  track_chunk model (failed e) t = (failed e, t)

  abbrev pub tracked_response :
      Result Error (ChatCompletionResponse F) × Tracked S P
      → Result Error (ChatCompletionResponse F) × Tracked S P
  tracked_response (ok r, t) = track_response r t
  tracked_response (err e, t) = (err e, t)
  tracked_response (panic, t) = (panic, t)

  module _ {C : Type 0} where
    abbrev pub tracked_stream :
        String → Result Error C × Tracked S P → Result Error (CostTrackingStream C) × Tracked S P
    tracked_stream model (ok c, t) = (ok (record { inner = c; model = model }), t)
    tracked_stream model (err e, t) = (err e, t)
    tracked_stream model (panic, t) = (panic, t)

    -- `Next` and `Close` of a tracked stream.
    abbrev pub next_tracked :
        ProviderService S F C → CostTrackingStream C → Tracked S P → Pulled F × Tracked S P
    next_tracked provider c t =
        let (pulled, s) = provider.next c.inner t.world in
        track_chunk c.model pulled (record t { world = s })

    abbrev pub close_tracked :
        ProviderService S F C → CostTrackingStream C → Tracked S P → Tracked S P
    close_tracked provider c t = record t { world = provider.close c.inner t.world }

    unfoldable pub with_cost_tracking :
        ProviderService S F C → ProviderService (Tracked S P) F (CostTrackingStream C)
    unfolding track_response track_chunk
    with_cost_tracking provider = record {
      list_models = through provider.list_models;
      create_chat_completion =
          λ q t. tracked_response (through (provider.create_chat_completion q) t);
      create_chat_completion_stream =
          λ q t. tracked_stream q.model (through (provider.create_chat_completion_stream q) t);
      next = next_tracked provider;
      close = close_tracked provider;
    }
