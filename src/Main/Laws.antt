-- ===== src/Main/Laws.antt =====
-- cmd/claude-oauth-proxy/main.go: `config validate` and the start of the program agree.
use claude_oauth_proxy.Base.{◌⧺◌, ◌++◌, String, ◌≡◌, refl, [], ◌∷◌, ◌⊎◌, inl, inr}
use claude_oauth_proxy.Core.{ok, err}
use claude_oauth_proxy.Auth.Interface.{AuthService}
use claude_oauth_proxy.Runtime.Config.{config_from_env}
use claude_oauth_proxy.Runtime.Config.Laws.{Visits}
use claude_oauth_proxy.Runtime.App.{App}
use claude_oauth_proxy.Runtime.App.Laws.{new_app_outcome}
use claude_oauth_proxy.Cli.Console.{Console, exited, Outside, Application}
use claude_oauth_proxy.Cli.Commands.{run_config}
use claude_oauth_proxy.Cli.Run.{run, dispatch}
use claude_oauth_proxy.Main.{default_factory, main_run}

module _ {W : Type 0} (o : Outside W) (visits : Visits o.visit) (auth_of : App → AuthService W)
    (getenv : String → String) (token_file : String) (k : Console W) where
  -- The command config validate exits with 0 just when the program that the configuration stands
  -- for can be built, and with 1 and what is wrong on stderr when it cannot.
  pub main_run-validate :
      let (exit, k') = main_run o auth_of getenv token_file ("config" ∷ "validate" ∷ []) k in
      ((exit ≡ exited 0)
        × (app : Application W) × (default_factory o auth_of (config_from_env getenv token_file)
            ≡ ok app))
      ⊎ ((exit ≡ exited 1)
          × (e : String) × (default_factory o auth_of (config_from_env getenv token_file) ≡ err e)
          × (k'.stderr ≡ k.stderr ++ ("config is invalid: " ⧺ e) ∷ []))
  unfolding main_run run dispatch run_config default_factory
  main_run-validate =
      elim (new_app_outcome o.visit visits o.parse_duration (config_from_env getenv token_file)) [
        | inl (e, invalid, failed) ↦ inr (rw invalid refl, e, rw failed refl, rw invalid refl)
        | inr (valid, app, b) ↦ inl (
          rw valid refl,
          record { auth = auth_of app; refresh_interval = app.refresh_interval },
          rw b.given refl,
        )
      ]
