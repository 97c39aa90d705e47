-- ===== src/Runtime/Services.antt =====
-- internal/runtime/service_factory.go: how `NewAppWithLogger` puts the provider together.
pub mod Laws
use claude_oauth_proxy.Base.{ℕ, ℤ, String, Option, none, some}
use claude_oauth_proxy.Logging.{Logged}
use claude_oauth_proxy.Anthropic.Calls.{Upstream}
use claude_oauth_proxy.Anthropic.Service.{Reached, OpenedStream, anthropic_service}
use claude_oauth_proxy.Provider.{ProviderService, with_logging}
use claude_oauth_proxy.Cost.Pricing.{Floats}
use claude_oauth_proxy.Cost.Tracking.{
  Tracked, PricingSource, CostTrackingStream, with_cost_tracking,
}
use claude_oauth_proxy.Runtime.App.{App}

-- The provider with its log, or with the costs and its log around that.
pub data BuiltProvider (S P F C : Type 0) : Type 0 where
  logged : ProviderService (Logged S) F C → BuiltProvider S P F C
  tracked : ProviderService (Tracked (Logged S) P) F (CostTrackingStream C) → BuiltProvider S P F C

module _ {S P F C : Type 0} (now : S → ℤ) (elapsed_ms : ℤ → ℤ → ℤ) (f : Floats F)
    (source : String → PricingSource P F) where
  -- The pricing source at its address, where costs are tracked.
  abbrev pub decorated : Option String → ProviderService S F C → BuiltProvider S P F C
  decorated none provider = logged (with_logging now elapsed_ms provider)
  decorated (some url) provider =
      tracked (with_cost_tracking f (source url) (with_logging now elapsed_ms provider))

module _ {W P F S : Type 0} (now : Reached W F → ℤ) (elapsed_ms : ℤ → ℤ → ℤ) (f : Floats F)
    (source : String → PricingSource P F) (up : Upstream W F S) (one : F)
    (parse_schema : String → Option S) (clock : ℕ → ℤ) (close : W → W) where
  abbrev pub anthropic_of : App → ProviderService (Reached W F) F OpenedStream
  anthropic_of app = anthropic_service up one parse_schema clock close app.anthropic_config

  unfoldable pub provider_service : App → BuiltProvider (Reached W F) P F OpenedStream
  provider_service app = decorated now elapsed_ms f source app.pricing_url (anthropic_of app)
