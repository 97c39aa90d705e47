-- ===== src/Runtime/Examples.antt =====
-- internal/runtime: configurations from concrete environments.
pub mod Services
use claude_oauth_proxy.Base.{get, []}
use claude_oauth_proxy.Runtime.App.{build}
use claude_oauth_proxy.Runtime.App.Access.{new_app_guarded}
use claude_oauth_proxy.Http.{has_prefix, Request}
use claude_oauth_proxy.Http.CleanPath.{clean_path}
use claude_oauth_proxy.Http.Handler.{new_handler}
use claude_oauth_proxy.Http.Examples.{counting, fresh, asks}
use claude_oauth_proxy.Runtime.ByteSize.{parse_byte_size}
use claude_oauth_proxy.Base.{
  ◌*ℤ◌, wrap64, mul64, lowers_to, is_blank, trim_space, String, ◌==◌, ◌≡◌, refl, pos, List, ◌⊎◌,
  inl, inr, none, some, if◌then◌else◌,
}
use claude_oauth_proxy.Core.{err}
use claude_oauth_proxy.Tokens.{Duration}
use claude_oauth_proxy.Runtime.Config.{Config, config_from_env, validate}
use claude_oauth_proxy.Runtime.Config.Laws.{Visits}
use claude_oauth_proxy.Runtime.Config.Environment.{config_from_env_valid}
use claude_oauth_proxy.Runtime.App.{App, new_app}
use claude_oauth_proxy.Runtime.App.Laws.{IsBuilt, new_app_outcome}

-- The entries as they are written, whole minutes as durations, and an environment with one variable.
abbrev pub in_order : List (String × String) → List (String × String)
in_order m = m

pub in_order-Visits : Visits in_order
in_order-Visits = record { every = λ p m. refl }

abbrev pub minutes : String → String ⊎ Duration
minutes s =
    if s == "1m"
    then inr (pos 60000000000)
    else if s == "5m"
    then inr (pos 300000000000)
    else if s == "10m"
    then inr (pos 600000000000)
    else inl "time: invalid duration"

abbrev pub listening : String → String
listening key = if key == "CLAUDE_OAUTH_PROXY_LISTEN_ADDR" then " :8080 " else ""

abbrev pub configured : Config
configured = config_from_env listening "tokens.json"

listen_addr_runs : configured.listen_addr ≡ ":8080"
unfolding config_from_env trim_space
listen_addr_runs = refl

config_from_env_valid_example :
    validate in_order minutes (config_from_env listening "tokens.json") ≡ none
unfolding is_blank config_from_env parse_byte_size lowers_to mul64 wrap64 ◌*ℤ◌
config_from_env_valid_example =
    config_from_env_valid listening "tokens.json" refl in_order minutes (pos 600000000000)
      (pos 60000000000) (pos 300000000000) (pos 10485760) in_order-Visits refl refl refl refl

new_app_outcome_example :
    ((e : String) × (validate in_order minutes configured ≡ some e)
      × (new_app in_order minutes configured ≡ err e))
    ⊎ ((validate in_order minutes configured ≡ none)
        × (app : App) × IsBuilt in_order in_order-Visits minutes configured app)
new_app_outcome_example = new_app_outcome in_order in_order-Visits minutes configured

-- The program of that configuration, and a request without a key.
abbrev pub built : App
built = build configured (pos 300000000000) (pos 60000000000) (pos 600000000000) (pos 10485760)

abbrev keyless : Request
keyless = record (asks "/v1/chat/completions") { headers = [] }

new_app_guarded_example :
    let y =
      new_handler counting 5 built.api_key built.cors_origins built.max_request_body keyless
        (fresh 2) in
    (y.state ≡ 2) × (y.status ≡ some 401)
unfolding new_app validate is_blank config_from_env parse_byte_size lowers_to mul64 wrap64 ◌*ℤ◌
    has_prefix get clean_path
new_app_guarded_example =
    new_app_guarded in_order in_order-Visits minutes configured built refl counting 5 keyless
      (fresh 2) refl refl refl
