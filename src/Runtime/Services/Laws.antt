-- ===== src/Runtime/Services/Laws.antt =====
-- internal/runtime/service_factory.go: the provider of the program behaves as the Anthropic service.
use mathlib.Core.Path.{ap, ◌∙◌}
use claude_oauth_proxy.Base.{sym, ℕ, ℤ, String, Option, none, some}
use claude_oauth_proxy.Openai.{ChatCompletionResponse}
use claude_oauth_proxy.Logging.{Logged}
use claude_oauth_proxy.Anthropic.Stream.{Pulled}
use claude_oauth_proxy.Anthropic.Calls.{Upstream}
use claude_oauth_proxy.Anthropic.Service.{Reached}
use claude_oauth_proxy.Provider.{ProviderService, with_logging}
use claude_oauth_proxy.Provider.Laws.{
  map_ok, map_ok-id, RefinesProvider, with_logging-RefinesProvider,
}
use claude_oauth_proxy.Cost.Pricing.{Floats}
use claude_oauth_proxy.Cost.Tracking.{Tracked, PricingSource, CostTrackingStream}
use claude_oauth_proxy.Cost.Tracking.Laws.{plain, plain_pulled, with_cost_tracking-RefinesProvider}
use claude_oauth_proxy.Runtime.App.{App}
use claude_oauth_proxy.Runtime.Services.{
  BuiltProvider, logged, tracked, decorated, anthropic_of, provider_service,
}

-- A service that refines one which gives just what a third gives refines that one.
RefinesProvider-trans :
    {V S T F C D : Type 0} {view : V → S} {inner : D → C}
    {response : ChatCompletionResponse F → ChatCompletionResponse F} {pulled : Pulled F → Pulled F}
    {view' : S → T} {p : ProviderService V F D} {q : ProviderService S F C}
    {r : ProviderService T F C}
    → RefinesProvider view inner response pulled p q
    → RefinesProvider view' (λ c. c) (λ a. a) (λ a. a) q r
    → RefinesProvider (λ v. view' (view v)) inner response pulled p r
RefinesProvider-trans {view = view} {inner = inner} {response = response} {pulled = pulled}
      {view' = view'} a b =
    record {
      list_models = λ v.
          let (result, state) = a.list_models v in
          let (result', state') = b.list_models (view v) in
          (result ∙ result', ap view' state ∙ state');
      create_chat_completion = λ q v.
          let (result, state) = a.create_chat_completion q v in
          let (result', state') = b.create_chat_completion q (view v) in
          (
            result ∙ ap (map_ok response) (sym (map_ok-id _) ∙ result' ∙ map_ok-id _),
            ap view' state ∙ state',
          );
      create_chat_completion_stream = λ q v.
          let (result, state) = a.create_chat_completion_stream q v in
          let (result', state') = b.create_chat_completion_stream q (view v) in
          (result ∙ sym (map_ok-id _) ∙ result', ap view' state ∙ state');
      next = λ d v.
          let (result, state) = a.next d v in
          let (result', state') = b.next (inner d) (view v) in
          (result ∙ ap pulled result', ap view' state ∙ state');
      close = λ d v. ap view' (a.close d v) ∙ b.close (inner d) (view v);
    }

module _ {S P F C : Type 0} where
  -- What the program uses gives what the service behind it gives, but for the costs of usages where
  -- these are tracked.
  abbrev pub RefinesBuilt : BuiltProvider S P F C → ProviderService S F C → Type 0
  RefinesBuilt (logged p) q =
      RefinesProvider (λ (l : Logged S). l.world) (λ (c : C). c) (λ r. r) (λ c. c) p q
  RefinesBuilt (tracked p) q =
      RefinesProvider (λ (t : Tracked (Logged S) P). t.world.world)
        (λ (c : CostTrackingStream C). c.inner) plain plain_pulled p q

  decorated-RefinesBuilt :
      (now : S → ℤ) (elapsed_ms : ℤ → ℤ → ℤ) (f : Floats F) (source : String → PricingSource P F)
      (url : Option String) (p : ProviderService S F C)
      → RefinesBuilt (decorated now elapsed_ms f source url p) p
  decorated-RefinesBuilt now elapsed_ms f source none p =
      with_logging-RefinesProvider now elapsed_ms p
  decorated-RefinesBuilt now elapsed_ms f source (some url) p =
      RefinesProvider-trans
        (with_cost_tracking-RefinesProvider f (source url) (with_logging now elapsed_ms p))
        (with_logging-RefinesProvider now elapsed_ms p)

module _ {W P F S : Type 0} (now : Reached W F → ℤ) (elapsed_ms : ℤ → ℤ → ℤ) (f : Floats F)
    (source : String → PricingSource P F) (up : Upstream W F S) (one : F)
    (parse_schema : String → Option S) (clock : ℕ → ℤ) (close : W → W) where
  -- The provider that NewAppWithLogger puts together refines the Anthropic service of its
  -- configuration, logged and, where costs are tracked, with the costs around that: the models, the
  -- results, the streams, their chunks, the errors and the state of that service are the same, but
  -- for the costs of usages where these are tracked.
  pub provider_service-RefinesBuilt :
      (app : App)
      → RefinesBuilt
          (provider_service now elapsed_ms f source up one parse_schema clock close app)
          (anthropic_of now elapsed_ms f source up one parse_schema clock close app)
  unfolding provider_service
  provider_service-RefinesBuilt app =
      decorated-RefinesBuilt now elapsed_ms f source app.pricing_url _
