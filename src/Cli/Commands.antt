-- ===== src/Cli/Commands.antt =====
-- internal/adapters/cli/run.go: the commands but `serve`.
pub mod Laws
pub mod Login
pub mod Explained
pub mod Saved
use claude_oauth_proxy.Base.{
  String, ◌⧺◌, ◌==◌, Bool, true, false, not, Option, none, some, List, [], ◌∷◌, if◌then◌else◌,
  is_empty, trim_space,
}
use claude_oauth_proxy.Core.{Error, Result, ok, err, panic}
use claude_oauth_proxy.Auth.{PrepareLoginOutput, CompleteLoginOutput, StatusOutput}
use claude_oauth_proxy.Auth.Interface.{AuthService}
use claude_oauth_proxy.Runtime.Config.{Config, validate}
use claude_oauth_proxy.Cli.Code.{normalize_code}
use claude_oauth_proxy.Cli.Flags.{
  Flag, word, switch, FlagError, help, wrong, parse_flags, word_of, switch_of,
}
use claude_oauth_proxy.Cli.Console.{
  Console, Exit, exited, Command, Reading, delimited, at_end, unreadable, cancelled, Application,
  Outside, exit, crash, print, complain, call, give_up,
}

abbrev pub usage_lines : List String
usage_lines =
    "claude-oauth-proxy - OpenAI-compatible Claude OAuth proxy" ∷ "" ∷ "Usage:"
    ∷ "  claude-oauth-proxy serve [--listen-addr :9999] [--api-key sk-proxy-local-key] [--relogin] [--no-browser] [--code <code>] [--cost-tracking]"
    ∷ "  claude-oauth-proxy login [--no-browser] [--code <code>]" ∷ "  claude-oauth-proxy status"
    ∷ "  claude-oauth-proxy logout" ∷ "  claude-oauth-proxy config validate"
    ∷ "  claude-oauth-proxy version" ∷ []

-- `readLineWithContext`: the line, where the text that ends without one is taken too, or an error.
abbrev pub line_of : Reading → Result String String
line_of (delimited line) = ok line
line_of (at_end line) = ok line
line_of (unreadable e) = err e
line_of (cancelled e) = err e

abbrev pub bool_text : Bool → String
bool_text true = "true"
bool_text false = "false"

module _ {W : Type 0} (o : Outside W) where
  -- `printUsage` on stdout or on stderr.
  abbrev pub usage_out : Command W → Command W
  usage_out = print usage_lines

  abbrev pub usage_err : Command W → Command W
  usage_err = complain usage_lines

  abbrev pub with_line : (String → Command W) → Result String String → Command W
  with_line next (ok line) = next (trim_space line)
  with_line next (err e) = complain (("failed to read oauth code: " ⧺ e) ∷ []) (exit 1)
  with_line next panic = crash

  abbrev pub read_line_with_context : (String → Command W) → Command W
  read_line_with_context next k =
      let (reading, w) = o.read_line k.world in
      with_line next (line_of reading) (record k { world = w })

  -- The code that is given, or else the one that is read.
  unfoldable pub with_code : String → (String → Command W) → Command W
  with_code code next =
      let trimmed = trim_space code in
      if is_empty trimmed
      then print
          ("after logging in, copy the ?code=... value from the redirect URL and paste it here:"
            ∷ "code: " ∷ [])
          (read_line_with_context next)
      else next trimmed

  abbrev pub logged_in : CompleteLoginOutput → Command W
  logged_in result =
      print
        (("saved oauth session to " ⧺ result.token_path)
          ∷ ("token expires at " ⧺ o.format_time result.expires_at)
          ∷ [])
        (exit 0)

  unfoldable pub complete_with : AuthService W → PrepareLoginOutput → String → Command W
  complete_with auth prepared code =
      call
        (auth.complete_login (record {
          auth_code = normalize_code o.query code;
          state = prepared.state;
          code_verifier = prepared.code_verifier;
          redirect_uri = "";
        }))
        (give_up "failed to complete oauth login") logged_in

  abbrev pub login_prepared : AuthService W → String → PrepareLoginOutput → Command W
  login_prepared auth code prepared =
      print ("open this URL in your browser:" ∷ "" ∷ prepared.auth_url ∷ "" ∷ [])
        (with_code code (complete_with auth prepared))

  unfoldable pub execute_login_flow : AuthService W → Bool → String → Command W
  unfolding with_code complete_with
  execute_login_flow auth open_it code =
      call (auth.prepare_login open_it) (give_up "failed to prepare oauth login")
        (login_prepared auth code)

  -- The application, or the exit when there is none.
  abbrev pub started : (Application W → Command W) → Result String (Application W) → Command W
  started next (ok app) = next app
  started next (err e) = complain (("failed to initialize app: " ⧺ e) ∷ []) (exit 1)
  started next panic = crash

  abbrev pub with_app : Config → (Application W → Command W) → Command W
  with_app cfg next = started next (o.factory cfg)

  -- What the flag set has written when its arguments are refused.
  abbrev pub flag_lines : String → FlagError → List String
  flag_lines name help = o.flag_usage name ∷ []
  flag_lines name (wrong e) = e ∷ o.flag_usage name ∷ []

  abbrev pub parsed :
      String
      → ((List (String × Flag)) → Command W)
      → Result FlagError (List (String × Flag))
      → Command W
  parsed name next (ok flags) = next flags
  parsed name next (err e) = complain (flag_lines name e) (exit 2)
  parsed name next panic = crash

  abbrev pub login_flags : List (String × Flag)
  login_flags = ("no-browser", switch false) ∷ ("code", word "") ∷ []

  unfoldable pub run_login : Config → List String → Command W
  unfolding execute_login_flow
  run_login cfg args =
      parsed "login"
        (λ flags. with_app cfg λ app.
          execute_login_flow app.auth (not (switch_of "no-browser" flags)) (word_of "code" flags))
        (parse_flags login_flags args)

  abbrev pub status_lines : StatusOutput → List String
  status_lines status =
      if not status.exists
      then ("no saved oauth session at " ⧺ status.token_path) ∷ []
      else ("saved oauth session at " ⧺ status.token_path)
        ∷ ("expires at " ⧺ o.format_time status.expires_at)
        ∷ ("expired=" ⧺ bool_text status.is_expired)
        ∷ []

  unfoldable pub run_status : Config → Command W
  run_status cfg = with_app cfg λ app.
      call app.auth.status (give_up "failed to load status")
        λ status. print (status_lines status) (exit 0)

  unfoldable pub run_logout : Config → Command W
  run_logout cfg = with_app cfg λ app.
      call app.auth.logout (give_up "failed to delete token file")
        λ path. print (("deleted oauth session at " ⧺ path) ∷ []) (exit 0)

  abbrev pub validated : Config → Option String → Command W
  validated cfg (some e) = complain (("config is invalid: " ⧺ e) ∷ []) (exit 1)
  validated cfg none =
      print
        ("config is valid"
          ∷ ("listen_addr=" ⧺ cfg.listen_addr)
          ∷ ("token_file=" ⧺ cfg.token_file)
          ∷ [])
        (exit 0)

  unfoldable pub run_config : Config → List String → Command W
  run_config cfg (arg ∷ []) =
      if arg == "validate"
      then validated cfg (validate o.visit o.parse_duration cfg)
      else usage_err (exit 2)
  run_config cfg _ = usage_err (exit 2)
