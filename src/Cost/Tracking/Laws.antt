-- ===== src/Cost/Tracking/Laws.antt =====
-- internal/cost/middleware.go: the service that adds costs changes nothing else.
use mathlib.Core.Option
use claude_oauth_proxy.Base.{ap, String, Option, none, some, List, ◌≡◌, refl}
use claude_oauth_proxy.Core.{Error, Result, ok, err, panic}
use claude_oauth_proxy.Openai.{Usage, ChatCompletionResponse, ChatCompletionChunk}
use claude_oauth_proxy.Anthropic.Stream.{Pulled, got, eof, failed}
use claude_oauth_proxy.Logging.{Entry}
use claude_oauth_proxy.Provider.{ProviderService}
use claude_oauth_proxy.Provider.Laws.{map_ok, RefinesProvider}
use claude_oauth_proxy.Cost.Pricing.{Floats, ModelPricing}
use claude_oauth_proxy.Cost.Tracking.{
  Tracked, PricingSource, CostTrackingStream, with_price, track_response, chunk_with, track_chunk,
  tracked_stream, tracked_response, with_cost_tracking,
}

-- What is left without the cost.
abbrev pub uncosted : {F : Type 0} → Usage F → Usage F
uncosted u = record u { cost = none }

abbrev pub plain : {F : Type 0} → ChatCompletionResponse F → ChatCompletionResponse F
plain r = record r { usage = uncosted r.usage }

abbrev pub plain_pulled : {F : Type 0} → Pulled F → Pulled F
plain_pulled (got c) = got (record c { usage = Option.map uncosted c.usage })
plain_pulled eof = eof
plain_pulled (failed e) = failed e

module _ {P F : Type 0} (f : Floats F) (source : PricingSource P F) where
  with_price-uncosted :
      (model : String) (u : Usage F) (logs : List Entry) (price : Option (ModelPricing F))
      → uncosted (with_price f source model u logs price).0 ≡ uncosted u
  with_price-uncosted model u logs none = refl
  with_price-uncosted model u logs (some p) = refl

module _ {S P F : Type 0} (f : Floats F) (source : PricingSource P F) where
  tracked_response-plain :
      (r : Result Error (ChatCompletionResponse F)) (t : Tracked S P)
      → (map_ok plain (tracked_response f source (r, t)).0 ≡ map_ok plain r)
        × ((tracked_response f source (r, t)).1.world ≡ t.world)
  unfolding track_response
  tracked_response-plain (ok r) t = (
    ap (λ (u : Usage F). ok (record r { usage = u }))
        (with_price-uncosted f source r.model r.usage t.logs (source.lookup r.model t.pricing).0),
    refl,
  )
  tracked_response-plain (err e) t = (refl, refl)
  tracked_response-plain panic t = (refl, refl)

  tracked_stream-inner :
      {C : Type 0} (model : String) (r : Result Error C) (t : Tracked S P)
      → (map_ok (λ (c : CostTrackingStream C). c.inner) (tracked_stream f source model (r, t)).0
          ≡ r)
        × ((tracked_stream f source model (r, t)).1.world ≡ t.world)
  tracked_stream-inner model (ok c) t = (refl, refl)
  tracked_stream-inner model (err e) t = (refl, refl)
  tracked_stream-inner model panic t = (refl, refl)

  chunk_with-plain :
      (model : String) (c : ChatCompletionChunk F) (o : Option (Usage F)) (t : Tracked S P)
      → c.usage ≡ o
      → (plain_pulled (chunk_with f source model c o t).0 ≡ plain_pulled (got c))
        × ((chunk_with f source model c o t).1.world ≡ t.world)
  chunk_with-plain model c none t e = (refl, refl)
  chunk_with-plain model c (some u) t e = (
    rw e (
        ap (λ (v : Usage F). got (record c { usage = some v }))
          (with_price-uncosted f source model u t.logs (source.lookup model t.pricing).0)),
    refl,
  )

  track_chunk-plain :
      (model : String) (p : Pulled F) (t : Tracked S P)
      → (plain_pulled (track_chunk f source model p t).0 ≡ plain_pulled p)
        × ((track_chunk f source model p t).1.world ≡ t.world)
  unfolding track_chunk
  track_chunk-plain model (got c) t = chunk_with-plain model c c.usage t refl
  track_chunk-plain model eof t = (refl, refl)
  track_chunk-plain model (failed e) t = (refl, refl)

  -- The service with cost tracking refines the service behind it: apart from the costs of usages
  -- the results, the streams, their chunks and the errors are the same, and so is the state of that
  -- service.
  pub with_cost_tracking-RefinesProvider :
      {C : Type 0} (provider : ProviderService S F C)
      → RefinesProvider
          (λ (t : Tracked S P). t.world)
          (λ (c : CostTrackingStream C). c.inner)
          plain
          plain_pulled
          (with_cost_tracking f source provider)
          provider
  unfolding with_cost_tracking
  with_cost_tracking-RefinesProvider provider = record {
    list_models = λ t. (refl, refl);
    create_chat_completion = λ q t.
        let (r, s) = provider.create_chat_completion q t.world in
        tracked_response-plain r (record t { world = s });
    create_chat_completion_stream = λ q t.
        let (r, s) = provider.create_chat_completion_stream q t.world in
        tracked_stream-inner q.model r (record t { world = s });
    next = λ c t.
        let (p, s) = provider.next c.inner t.world in
        track_chunk-plain c.model p (record t { world = s });
    close = λ c t. refl;
  }
