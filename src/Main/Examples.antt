-- ===== src/Main/Examples.antt =====
-- cmd/claude-oauth-proxy/main.go: `config validate` over a concrete environment.
use claude_oauth_proxy.Base.{String, ◌⧺◌, ◌≡◌, ◌⊎◌, [], ◌∷◌}
use claude_oauth_proxy.Core.{ok, err}
use claude_oauth_proxy.Tokens.FileStore.{Disk}
use claude_oauth_proxy.Runtime.Config.{config_from_env}
use claude_oauth_proxy.Runtime.Examples.{listening, in_order-Visits}
use claude_oauth_proxy.Cli.Console.{exited, Application}
use claude_oauth_proxy.Cli.Examples.{auth, outside, console}
use claude_oauth_proxy.Main.{default_factory, main_run}
use claude_oauth_proxy.Main.Laws.{main_run-validate}

main_run-validate_example :
    let (exit, k') =
      main_run outside
        (λ app. auth)
        listening
        "tokens.json"
        ("config" ∷ "validate" ∷ [])
        (console []) in
    ((exit ≡ exited 0)
      × (app : Application Disk) × (default_factory outside
            (λ app. auth)
            (config_from_env listening "tokens.json")
          ≡ ok app))
    ⊎ ((exit ≡ exited 1)
        × (e : String) × (default_factory outside
              (λ app. auth)
              (config_from_env listening "tokens.json")
            ≡ err e)
        × (k'.stderr ≡ ("config is invalid: " ⧺ e) ∷ []))
main_run-validate_example =
    main_run-validate outside in_order-Visits (λ app. auth) listening "tokens.json" (console [])
