-- ===== src/Provider/Laws.antt =====
-- internal/provider/provider.go: when a service behaves as the one behind it.
use claude_oauth_proxy.Base.{◌∙◌, ℤ, ◌≡◌, refl, ap}
use claude_oauth_proxy.Core.{Error, Result, ok, err, panic}
use claude_oauth_proxy.Logging.{Logged}
use claude_oauth_proxy.Logging.Laws.{with_provider_operation_lem}
use claude_oauth_proxy.Openai.{ChatCompletionRequest, ChatCompletionResponse}
use claude_oauth_proxy.Anthropic.Stream.{Pulled}
use claude_oauth_proxy.Provider.{ProviderService, with_logging}

abbrev pub map_ok : {A B : Type 0} → (A → B) → Result Error A → Result Error B
map_ok f (ok a) = ok (f a)
map_ok f (err e) = err e
map_ok f panic = panic

-- A service on a state `V` with streams `D` that gives what the service behind it gives, read through
-- `response`, `pulled` and `inner`, and leaves that service's state as it does.
pub record RefinesProvider {V S F C D : Type 0} (view : V → S) (inner : D → C)
    (response : ChatCompletionResponse F → ChatCompletionResponse F) (pulled : Pulled F → Pulled F)
    (detailed : ProviderService V F D) (abstract : ProviderService S F C) : Type 0 where
  pub list_models :
      (v : V)
      → ((detailed.list_models v).0 ≡ (abstract.list_models (view v)).0)
        × (view (detailed.list_models v).1 ≡ (abstract.list_models (view v)).1)
  pub create_chat_completion :
      (q : ChatCompletionRequest F) (v : V)
      → (map_ok response (detailed.create_chat_completion q v).0
          ≡ map_ok response (abstract.create_chat_completion q (view v)).0)
        × (view (detailed.create_chat_completion q v).1
            ≡ (abstract.create_chat_completion q (view v)).1)
  pub create_chat_completion_stream :
      (q : ChatCompletionRequest F) (v : V)
      → (map_ok inner (detailed.create_chat_completion_stream q v).0
          ≡ (abstract.create_chat_completion_stream q (view v)).0)
        × (view (detailed.create_chat_completion_stream q v).1
            ≡ (abstract.create_chat_completion_stream q (view v)).1)
  pub next :
      (d : D) (v : V)
      → (pulled (detailed.next d v).0 ≡ pulled (abstract.next (inner d) (view v)).0)
        × (view (detailed.next d v).1 ≡ (abstract.next (inner d) (view v)).1)
  pub close : (d : D) (v : V) → view (detailed.close d v) ≡ abstract.close (inner d) (view v)

pub map_ok-id : {A : Type 0} (r : Result Error A) → map_ok (λ (a : A). a) r ≡ r
map_ok-id (ok a) = refl
map_ok-id (err e) = refl
map_ok-id panic = refl

module _ {S F C : Type 0} (now : S → ℤ) (elapsed_ms : ℤ → ℤ → ℤ) where
  -- The provider with logging refines the provider behind it.
  pub with_logging-RefinesProvider :
      (provider : ProviderService S F C)
      → RefinesProvider
          (λ (l : Logged S). l.world)
          (λ c. c)
          (λ r. r)
          (λ p. p)
          (with_logging now elapsed_ms provider)
          provider
  unfolding with_logging
  with_logging-RefinesProvider provider = record {
    list_models = λ l.
        let (result, world, _) =
          with_provider_operation_lem now elapsed_ms "provider.models" provider.list_models l in
        (result, world);
    create_chat_completion = λ q l.
        let (result, world, _) =
          with_provider_operation_lem now elapsed_ms "provider.chat"
            (provider.create_chat_completion q) l in
        (ap (map_ok (λ r. r)) result, world);
    create_chat_completion_stream = λ q l.
        let (result, world, _) =
          with_provider_operation_lem now elapsed_ms "provider.chat_streaming"
            (provider.create_chat_completion_stream q) l in
        (ap (map_ok (λ c. c)) result ∙ map_ok-id _, world);
    next = λ c l. (refl, refl);
    close = λ c l. refl;
  }
