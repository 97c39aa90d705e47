-- ===== src/Main.antt =====
-- cmd/claude-oauth-proxy/main.go with `NewDefaultFactory` of internal/adapters/cli/run.go: the program.
pub mod Laws
pub mod Examples
use claude_oauth_proxy.Base.{String, List, ◌⊎◌}
use claude_oauth_proxy.Core.{Result, ok, err, panic}
use claude_oauth_proxy.Tokens.{Duration}
use claude_oauth_proxy.Auth.Interface.{AuthService}
use claude_oauth_proxy.Runtime.Config.{Config, config_from_env}
use claude_oauth_proxy.Runtime.App.{App, new_app}
use claude_oauth_proxy.Cli.Console.{Command, Outside, Application}
use claude_oauth_proxy.Cli.Run
use claude_oauth_proxy.Cli.Run.{run}

module _ {W : Type 0} (o : Outside W) (auth_of : App → AuthService W) where
  -- `NewDefaultFactory`; `auth_of` is the auth service that the constructors make.
  abbrev pub application : Result String App → Result String (Application W)
  application (ok app) = ok (record { auth = auth_of app; refresh_interval = app.refresh_interval })
  application (err e) = err e
  application panic = panic

  unfoldable pub default_factory : Config → Result String (Application W)
  default_factory cfg = application (new_app o.visit o.parse_duration cfg)

  -- `run` of the program: its own factory, and the configuration of the environment.
  unfoldable pub main_run : (String → String) → String → List String → Command W
  unfolding default_factory
  main_run getenv token_file args =
      run (record o { factory = default_factory }) (config_from_env getenv token_file) args
