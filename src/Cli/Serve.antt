-- ===== src/Cli/Serve.antt =====
-- internal/adapters/cli/run.go: `serve` with its refresh loop, and the choice of the command.
pub mod Laws
pub mod Refresh
pub mod Gate
pub mod Arguments
use claude_oauth_proxy.Base.{
  zero, pos, String, ◌⧺◌, ◌==◌, ◌||◌, Bool, true, false, not, Option, none, some, List, [], ◌∷◌,
  if◌then◌else◌, leb_ℤ,
}
use claude_oauth_proxy.Core.{Error, Result, ok, err, panic}
use claude_oauth_proxy.Tokens.{Duration}
use claude_oauth_proxy.Logging.{entry, text, number, flag}
use claude_oauth_proxy.Auth.{StatusOutput, AccessTokenOutput}
use claude_oauth_proxy.Auth.Interface.{AuthService}
use claude_oauth_proxy.Runtime.Config.{Config}
use claude_oauth_proxy.Cli.Flags.{Flag, word, switch, parse_flags, word_of, switch_of}
use claude_oauth_proxy.Cli.Console.{
  Console, Exit, exited, crashed, Command, Event, tick, meanwhile, Ending, closed, failed_with,
  Application, Outside, exit, print, complain, log, call, give_up,
}
use claude_oauth_proxy.Cli.Commands.{
  execute_login_flow, with_app, parsed, run_login, run_status, run_logout, run_config, usage_out,
  usage_err,
}

abbrev pub ticker_interval : Duration → Duration
ticker_interval interval = if leb_ℤ interval (pos 0) then pos 60000000000 else interval

module _ {W : Type 0} where
  -- One tick of `autoRefreshWithInterval`; an error is logged, and the loop goes on.
  abbrev pub refresh_failed : Command W → Error → Command W
  refresh_failed next e =
      log
        (entry "error" "service.operation.finish" (
          ("operation", text "auth.access_token")
          ∷ ("ok", flag false)
          ∷ ("error_code", text e.code)
          ∷ []))
        next

  -- The loop over what happens until the context ends.
  unfoldable pub auto_refresh : AuthService W → List (Event W) → Command W → Command W
  auto_refresh auth [] next = next
  auto_refresh auth (tick ∷ events) next =
      call (auth.access_token false) (refresh_failed (auto_refresh auth events next))
        λ token. auto_refresh auth events next
  auto_refresh auth (meanwhile change ∷ events) next =
      λ k. auto_refresh auth events next (record k { world = change k.world })

abbrev pub unauthenticated_lines : List String
unauthenticated_lines =
    "no valid oauth session found; starting server without authentication"
    ∷ "run 'claude-oauth-proxy login' to authenticate (readiness probe will report not ready until then)"
    ∷ []

abbrev pub serve_flags : Config → List (String × Flag)
serve_flags cfg =
    ("listen-addr", word cfg.listen_addr)
    ∷ ("api-key", word cfg.api_key)
    ∷ ("relogin", switch false)
    ∷ ("no-browser", switch false)
    ∷ ("code", word "")
    ∷ ("cost-tracking", switch cfg.cost_tracking)
    ∷ []

abbrev pub flagged : Config → List (String × Flag) → Config
flagged cfg flags = record cfg {
  listen_addr = word_of "listen-addr" flags;
  api_key = word_of "api-key" flags;
  cost_tracking = switch_of "cost-tracking" flags;
}

module _ {W : Type 0} (o : Outside W) where
  abbrev pub ended : Ending → Command W
  ended closed = exit 0
  ended (failed_with e) = complain (("server failed: " ⧺ e) ∷ []) (exit 1)

  -- `go autoRefreshWithInterval` and `ListenAndServe`.
  abbrev pub serve_until : Config → Application W → Command W
  serve_until cfg app k =
      let (events, ending) =
        o.serving cfg.listen_addr (ticker_interval app.refresh_interval) k.world in
      auto_refresh app.auth events (ended ending) k

  unfoldable pub listen : Config → Application W → Command W
  unfolding auto_refresh
  listen cfg app =
      print (("serving OpenAI-compatible API on http://127.0.0.1" ⧺ cfg.listen_addr) ∷ [])
        (serve_until cfg app)

  -- The login flow, and what follows it when it gives 0.
  abbrev pub after_login : Command W → Exit × Console W → Exit × Console W
  after_login next (exited zero, k) = next k
  after_login next (r, k) = (r, k)

  abbrev pub log_in : AuthService W → Bool → String → Command W → Command W
  log_in auth open_it code next k = after_login next (execute_login_flow o auth open_it code k)

  abbrev pub not_logged_in : Config → AuthService W → Bool → String → Command W → Command W
  not_logged_in cfg auth open_it code next =
      if cfg.no_auto_login
      then complain unauthenticated_lines next
      else log_in auth open_it code next

  -- A session that gives a token is enough; without one there is a login.
  abbrev pub token_or_login :
      Config → AuthService W → Bool → String → Command W → StatusOutput → Command W
  token_or_login cfg auth open_it code next status =
      if not status.exists
      then not_logged_in cfg auth open_it code next
      else call (auth.access_token false) (λ e. not_logged_in cfg auth open_it code next)
          (λ token. next)

  unfoldable pub ensure_login : Config → AuthService W → Bool → String → Command W → Command W
  ensure_login cfg auth open_it code next =
      call auth.status (give_up "failed to inspect token state")
        (token_or_login cfg auth open_it code next)

  unfoldable pub serve_with : Config → List (String × Flag) → Application W → Command W
  unfolding ensure_login listen
  serve_with cfg flags app =
      if switch_of "relogin" flags
      then log_in app.auth (not (switch_of "no-browser" flags)) (word_of "code" flags)
          (listen cfg app)
      else ensure_login cfg app.auth (not (switch_of "no-browser" flags)) (word_of "code" flags)
          (listen cfg app)

  unfoldable pub run_serve : Config → List String → Command W
  unfolding serve_with
  run_serve cfg args =
      parsed o "serve"
        (λ flags. with_app o (flagged cfg flags) (serve_with (flagged cfg flags) flags))
        (parse_flags (serve_flags cfg) args)
