-- ===== src/Runtime/App/Laws.antt =====
-- internal/runtime/service_factory.go: when `NewAppWithLogger` fails.
use claude_oauth_proxy.Base.{String, ◌≡◌, refl, none, some, List, ◌⊎◌, inl, inr, Option-cases}
use claude_oauth_proxy.Core.{ok, err}
use claude_oauth_proxy.Tokens.{Duration}
use claude_oauth_proxy.Runtime.Config.{Config, validate}
use claude_oauth_proxy.Runtime.Config.Laws.{Visits, IsValid, validate-IsValid}
use claude_oauth_proxy.Runtime.App.{build, parse_byte_size, App, new_app}

module _ (visit : List (String × String) → List (String × String)) (visits : Visits visit)
    (parse : String → String ⊎ Duration) (c : Config) where
  -- The program that a valid configuration gives.
  pub record IsBuilt (app : App) : Type 0 where
    pub given : new_app visit parse c ≡ ok app
    pub same : app.config ≡ c
    pub api_key : app.api_key ≡ c.api_key
    pub interval : parse c.refresh_interval ≡ inr app.refresh_interval
    pub skew : parse c.refresh_skew ≡ inr app.auth_config.refresh_skew
    pub timeout : parse c.request_timeout ≡ inr app.anthropic_config.request_timeout
    pub limit : parse_byte_size c.max_request_body ≡ ok app.max_request_body

  IsValid-IsBuilt : validate visit parse c ≡ none → IsValid parse c → (app : App) × IsBuilt app
  unfolding new_app
  IsValid-IsBuilt h v =
      let (t, timeout) = v.timeout in
      let (i, interval) = v.interval in
      let (k, skew) = v.skew in
      let (n, size) = v.size in
      (
        build c k i t n,
        record {
          given = rw (new_app, h, skew, interval, timeout, size) refl;
          same = refl;
          api_key = refl;
          interval = interval;
          skew = skew;
          timeout = timeout;
          limit = size;
        },
      )

  -- NewAppWithLogger fails with the error of Validate or, where Validate finds none, gives a
  -- program with the durations and the size that the texts of the configuration stand for: nothing
  -- that it parses after Validate fails, in whatever order Validate meets the entries of its maps.
  pub new_app_outcome :
      ((e : String) × (validate visit parse c ≡ some e) × (new_app visit parse c ≡ err e))
      ⊎ ((validate visit parse c ≡ none) × (app : App) × IsBuilt app)
  unfolding new_app
  new_app_outcome = elim (Option-cases (validate visit parse c)) [
    | inl h ↦ inr (built h)
    | inr (e, h) ↦ inl (e, h, rw (new_app, h) refl)
  ]
    where
      built :
          validate visit parse c ≡ none
          → (validate visit parse c ≡ none) × (app : App) × IsBuilt app
      built h =
          let (app, b) = IsValid-IsBuilt h (validate-IsValid parse visit visits c h) in (h, app, b)
