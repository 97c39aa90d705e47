-- ===== src/Runtime/Examples/Services.antt =====
-- internal/runtime/service_factory.go: the provider of a concrete program, with costs in integers.
use claude_oauth_proxy.Base.{ℕ, ℤ, pos, suc, none, some, [], ◌∷◌, String}
use claude_oauth_proxy.Core.{ok}
use claude_oauth_proxy.Anthropic.Stream.{content_block_delta, text_delta, message_stop}
use claude_oauth_proxy.Anthropic.Calls.{Upstream}
use claude_oauth_proxy.Anthropic.Service.{Reached}
use claude_oauth_proxy.Cost.Examples.{whole, prices}
use claude_oauth_proxy.Runtime.Examples.{built}
use claude_oauth_proxy.Runtime.Services.{provider_service, anthropic_of}
use claude_oauth_proxy.Runtime.Services.Laws.{RefinesBuilt, provider_service-RefinesBuilt}

abbrev upstream : Upstream ℕ ℤ String
upstream = record {
  access_token = λ force n. (ok (record { token = "at"; expires_at = pos 0 }), suc n);
  list_models = λ client timeout n. (ok [], suc n);
  new_message = λ client timeout p n. (
    ok (record {
      content = [];
      stop_reason = "end_turn";
      input_tokens = pos 1;
      output_tokens = pos 0;
      cache_creation_input_tokens = pos 0;
      cache_read_input_tokens = pos 0;
    }),
    suc n,
  );
  new_streaming =
      λ client p n. ((content_block_delta (text_delta "hi") ∷ message_stop ∷ [], none), suc n);
  now = λ n. (pos n, pos n);
}

provider_service-RefinesBuilt_example :
    RefinesBuilt
      (provider_service
        (λ (s : Reached ℕ ℤ). pos s.world)
        (λ from to. pos 1)
        whole
        (λ url. prices)
        upstream
        (pos 1)
        (λ text. some text)
        (λ n. pos n)
        (λ n. n)
        built)
      (anthropic_of
        (λ (s : Reached ℕ ℤ). pos s.world)
        (λ from to. pos 1)
        whole
        (λ url. prices)
        upstream
        (pos 1)
        (λ text. some text)
        (λ n. pos n)
        (λ n. n)
        built)
provider_service-RefinesBuilt_example =
    provider_service-RefinesBuilt (λ (s : Reached ℕ ℤ). pos s.world) (λ from to. pos 1) whole
      (λ url. prices) upstream (pos 1) (λ text. some text) (λ n. pos n) (λ n. n) built
