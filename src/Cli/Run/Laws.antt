-- ===== src/Cli/Run/Laws.antt =====
-- internal/adapters/cli/run.go: what the exit code of the program says.
use claude_oauth_proxy.Buildinfo.{banner}
use claude_oauth_proxy.Base.{
  subst, ℕ, ◌<◌, ◌≡◌, ◌⊎◌, String, ◌⧺◌, List, [], ◌∷◌, length, ◌==◌, ◌||◌, arith,
}
use claude_oauth_proxy.Runtime.Config.{Config}
use claude_oauth_proxy.Cli.Console.{Console, Exit, exited, crashed, Outside, exit}
use claude_oauth_proxy.Cli.Commands.{usage_lines, usage_out, usage_err}
use claude_oauth_proxy.Cli.Commands.Laws.{
  Explained, IsExplaining, exit-IsExplaining, print-IsExplaining, complain-IsExplaining,
  log-IsExplaining,
}
use claude_oauth_proxy.Cli.Commands.Explained.{
  if-IsExplaining, run_login-IsExplaining, run_status-IsExplaining, run_logout-IsExplaining,
  run_config-IsExplaining, usage-IsExplaining,
}
use claude_oauth_proxy.Cli.Serve.Laws.{run_serve-IsExplaining}
use claude_oauth_proxy.Cli.Run.{dispatch, run, log_exit, join_args}

module _ {W : Type 0} (o : Outside W) where
  usage_out-IsExplaining : IsExplaining (usage_out o (exit 0))
  usage_out-IsExplaining = print-IsExplaining usage_lines (exit 0) exit-IsExplaining

  dispatch-IsExplaining :
      (cfg : Config) (name : String) (args : List String) → IsExplaining (dispatch o cfg name args)
  unfolding dispatch
  dispatch-IsExplaining cfg name args =
      if-IsExplaining (name == "serve") _ _ (run_serve-IsExplaining o cfg args) (
        if-IsExplaining (name == "login") _ _ (run_login-IsExplaining o cfg args) (
          if-IsExplaining (name == "status") _ _ (run_status-IsExplaining o cfg) (
            if-IsExplaining (name == "logout") _ _ (run_logout-IsExplaining o cfg) (
              if-IsExplaining (name == "config") _ _ (run_config-IsExplaining o cfg args) (
                if-IsExplaining (name == "version" || name == "--version" || name == "-v") _ _
                  (print-IsExplaining (banner o.build "claude-oauth-proxy" ∷ []) (exit 0)
                    exit-IsExplaining)
                  (if-IsExplaining (name == "help" || name == "--help" || name == "-h") _ _
                    usage_out-IsExplaining
                    (complain-IsExplaining (("unknown command: " ⧺ name) ∷ [])
                      (usage_err o (exit 2)) (usage-IsExplaining o))))))))

  log_exit-Explained :
      (command : String) (written : ℕ) (r : Exit × Console W)
      → Explained written r
      → Explained written (log_exit o command r)
  log_exit-Explained command written (exited n, k) h = record { kept = h.kept; code = h.code }
  log_exit-Explained command written (crashed, k) h = tt

  run-IsExplaining : (cfg : Config) (args : List String) → IsExplaining (run o cfg args)
  unfolding run
  run-IsExplaining cfg [] = usage_out-IsExplaining
  run-IsExplaining cfg (name ∷ args) = log-IsExplaining _ _ λ written k le.
      log_exit-Explained (join_args (name ∷ args)) written (dispatch o cfg name args k)
        (dispatch-IsExplaining cfg name args written k le)

  -- The program exits with 0, 1 or 2, whatever its arguments and whatever it reaches do, and when
  -- the code is 1 or 2 it has written on stderr.
  pub run_explained :
      (cfg : Config) (args : List String) (n : ℕ) (k k' : Console W)
      → run o cfg args k ≡ (exited n, k')
      → (n ≡ 0) ⊎ (((n ≡ 1) ⊎ (n ≡ 2)) × (length k.stderr < length k'.stderr))
  run_explained cfg args n k k' e =
      let told : Explained (length k.stderr) (exited n, k') =
        subst (λ r. Explained (length k.stderr) r) e
          (run-IsExplaining cfg args (length k.stderr) k (omega arith)) in
      told.code
