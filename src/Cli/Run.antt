-- ===== src/Cli/Run.antt =====
-- internal/adapters/cli/run.go: the choice of the command, and `Run`.
pub mod Laws
use claude_oauth_proxy.Buildinfo.{banner}
use claude_oauth_proxy.Base.{ℕ, pos, String, ◌⧺◌, ◌==◌, ◌||◌, List, [], ◌∷◌, if◌then◌else◌}
use claude_oauth_proxy.Logging.{entry, text, number}
use claude_oauth_proxy.Runtime.Config.{Config}
use claude_oauth_proxy.Cli.Console.{
  Console, Exit, exited, crashed, Command, Outside, exit, print, complain, log,
}
use claude_oauth_proxy.Cli.Commands.{
  run_login, run_status, run_logout, run_config, usage_out, usage_err,
}
use claude_oauth_proxy.Cli.Serve.{run_serve}

-- strings.Join(args, " ")
abbrev pub join_args : List String → String
join_args [] = ""
join_args (arg ∷ []) = arg
join_args (arg ∷ more ∷ args) = arg ⧺ " " ⧺ join_args (more ∷ args)

module _ {W : Type 0} (o : Outside W) where
  unfoldable pub dispatch : Config → String → List String → Command W
  dispatch cfg name args =
      if name == "serve"
      then run_serve o cfg args
      else if name == "login"
      then run_login o cfg args
      else if name == "status"
      then run_status o cfg
      else if name == "logout"
      then run_logout o cfg
      else if name == "config"
      then run_config o cfg args
      else if name == "version" || name == "--version" || name == "-v"
      then print (banner o.build "claude-oauth-proxy" ∷ []) (exit 0)
      else if name == "help" || name == "--help" || name == "-h"
      then usage_out o (exit 0)
      else complain (("unknown command: " ⧺ name) ∷ []) (usage_err o (exit 2))

  abbrev pub log_exit : String → Exit × Console W → Exit × Console W
  log_exit command (exited n, k) =
      log
        (entry "info" "cli.command.finish"
          (("command", text command) ∷ ("exit_code", number (pos n)) ∷ []))
        (exit n) k
  log_exit command (crashed, k) = (crashed, k)

  unfoldable pub run : Config → List String → Command W
  unfolding dispatch
  run cfg [] = usage_out o (exit 0)
  run cfg (name ∷ args) =
      log (entry "info" "cli.command.start" (("command", text (join_args (name ∷ args))) ∷ []))
        λ k. log_exit (join_args (name ∷ args)) (dispatch cfg name args k)
