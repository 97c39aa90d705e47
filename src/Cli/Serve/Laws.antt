-- ===== src/Cli/Serve/Laws.antt =====
-- internal/adapters/cli/run.go: `serve` explains a failure on stderr.
use claude_oauth_proxy.Base.{ℕ, suc, zero, inl, refl, String, ◌⧺◌, List, [], ◌∷◌, Bool, false, not}
use claude_oauth_proxy.Runtime.Config.{Config}
use claude_oauth_proxy.Auth.Interface.{AuthService}
use claude_oauth_proxy.Cli.Flags.{switch_of}
use claude_oauth_proxy.Cli.Console.{
  Console, Exit, exited, crashed, Command, Outside, Application, Event, tick, meanwhile, Ending,
  closed, failed_with, give_up,
}
use claude_oauth_proxy.Cli.Commands.{execute_login_flow}
use claude_oauth_proxy.Cli.Commands.Laws.{
  Explained, IsExplaining, exit-IsExplaining, print-IsExplaining, complain-exit,
  complain-IsExplaining, call-IsExplaining, give_up-IsExplaining, log-IsExplaining,
}
use claude_oauth_proxy.Cli.Commands.Explained.{
  if-IsExplaining, execute_login_flow-IsExplaining, started-IsExplaining, parsed-IsExplaining,
}
use claude_oauth_proxy.Cli.Serve.{
  ticker_interval, serve_until, token_or_login, refresh_failed, auto_refresh, ended, listen,
  after_login, log_in, not_logged_in, ensure_login, serve_with, run_serve, flagged,
}

module _ {W : Type 0} (auth : AuthService W) where
  auto_refresh-IsExplaining :
      (events : List (Event W)) (next : Command W)
      → IsExplaining next
      → IsExplaining (auto_refresh auth events next)
  unfolding auto_refresh
  auto_refresh-IsExplaining [] next h = h
  auto_refresh-IsExplaining (tick ∷ events) next h =
      let rest : IsExplaining (auto_refresh auth events next) =
        auto_refresh-IsExplaining events next h in
      call-IsExplaining (auth.access_token false) (refresh_failed (auto_refresh auth events next))
        (λ token. auto_refresh auth events next) (λ e. log-IsExplaining _ _ rest) λ token. rest
  auto_refresh-IsExplaining (meanwhile change ∷ events) next h = λ written k le.
      auto_refresh-IsExplaining events next h written (record k { world = change k.world }) le

module _ {W : Type 0} (o : Outside W) where
  ended-IsExplaining : (ending : Ending) → IsExplaining (ended o ending)
  ended-IsExplaining closed = exit-IsExplaining
  ended-IsExplaining (failed_with e) = complain-exit ("server failed: " ⧺ e) [] 1 (inl refl)

  listen-IsExplaining : (cfg : Config) (app : Application W) → IsExplaining (listen o cfg app)
  unfolding listen
  listen-IsExplaining cfg app =
      print-IsExplaining
        (("serving OpenAI-compatible API on http://127.0.0.1" ⧺ cfg.listen_addr) ∷ [])
        (serve_until o cfg app)
        λ written k le.
          let (events, ending) =
            o.serving cfg.listen_addr (ticker_interval app.refresh_interval) k.world in
          auto_refresh-IsExplaining app.auth events (ended o ending) (ended-IsExplaining ending)
            written k le

  after_login-Explained :
      (next : Command W) (written : ℕ) (r : Exit × Console W)
      → Explained written r
      → IsExplaining next
      → Explained written (after_login o next r)
  after_login-Explained next written (exited zero, k) h n = n written k h.kept
  after_login-Explained next written (exited (suc m), k) h n = h
  after_login-Explained next written (crashed, k) h n = tt

  log_in-IsExplaining :
      (auth : AuthService W) (open_it : Bool) (code : String) (next : Command W)
      → IsExplaining next
      → IsExplaining (log_in o auth open_it code next)
  log_in-IsExplaining auth open_it code next h written k le =
      after_login-Explained next written (execute_login_flow o auth open_it code k)
        (execute_login_flow-IsExplaining o auth open_it code written k le) h

  module _ (cfg : Config) (auth : AuthService W) (open_it : Bool) (code : String) (next : Command W)
      (h : IsExplaining next) where
    not_logged_in-IsExplaining : IsExplaining (not_logged_in o cfg auth open_it code next)
    not_logged_in-IsExplaining =
        if-IsExplaining cfg.no_auto_login _ _ (complain-IsExplaining _ next h)
          (log_in-IsExplaining auth open_it code next h)

    ensure_login-IsExplaining : IsExplaining (ensure_login o cfg auth open_it code next)
    unfolding ensure_login
    ensure_login-IsExplaining =
        call-IsExplaining auth.status (give_up "failed to inspect token state")
          (token_or_login o cfg auth open_it code next)
          (give_up-IsExplaining "failed to inspect token state")
          λ status. if-IsExplaining (not status.exists) _ _ not_logged_in-IsExplaining (
            call-IsExplaining (auth.access_token false)
              (λ e. not_logged_in o cfg auth open_it code next) (λ token. next)
              (λ e. not_logged_in-IsExplaining) (λ token. h))

  pub run_serve-IsExplaining :
      (cfg : Config) (args : List String) → IsExplaining (run_serve o cfg args)
  unfolding run_serve serve_with
  run_serve-IsExplaining cfg args = parsed-IsExplaining o "serve" _ _ λ flags.
      started-IsExplaining o _ (o.factory (flagged cfg flags)) λ app.
        if-IsExplaining (switch_of "relogin" flags) _ _
          (log_in-IsExplaining app.auth _ _ _ (listen-IsExplaining (flagged cfg flags) app))
          (ensure_login-IsExplaining (flagged cfg flags) app.auth _ _ _
            (listen-IsExplaining (flagged cfg flags) app))
