-- ===== src/Cli/Commands/Explained.antt =====
-- internal/adapters/cli/run.go: each command but `serve` explains a failure on stderr.
use claude_oauth_proxy.Base.{
  inl, inr, refl, String, ◌⧺◌, List, [], ◌∷◌, Bool, true, false, Option, none, some, is_empty,
  trim_space, ◌==◌, if◌then◌else◌,
}
use claude_oauth_proxy.Core.{Result, ok, err, panic}
use claude_oauth_proxy.Runtime.Config.{Config, validate}
use claude_oauth_proxy.Auth.{PrepareLoginOutput}
use claude_oauth_proxy.Auth.Interface.{AuthService}
use claude_oauth_proxy.Cli.Flags.{Flag, FlagError, help, wrong}
use claude_oauth_proxy.Cli.Console.{Command, Outside, Application, exit, print, give_up}
use claude_oauth_proxy.Cli.Commands.{
  normalize_code, with_line, line_of, read_line_with_context, with_code, complete_with, logged_in,
  login_prepared, execute_login_flow, started, parsed, status_lines, run_login, run_status,
  run_logout, run_config, validated, usage_err,
}
use claude_oauth_proxy.Cli.Commands.Laws.{
  IsExplaining, exit-IsExplaining, print-IsExplaining, complain-exit, call-IsExplaining,
  give_up-IsExplaining,
}

module _ {W : Type 0} where
  -- Either command of a test.
  pub if-IsExplaining :
      (b : Bool) (c d : Command W)
      → IsExplaining c
      → IsExplaining d
      → IsExplaining (if b then c else d)
  if-IsExplaining true c d h k = h
  if-IsExplaining false c d h k = k

module _ {W : Type 0} (o : Outside W) where
  with_line-IsExplaining :
      (next : String → Command W) (r : Result String String)
      → ((line : String) → IsExplaining (next line))
      → IsExplaining (with_line o next r)
  with_line-IsExplaining next (ok line) h = h (trim_space line)
  with_line-IsExplaining next (err e) h =
      complain-exit ("failed to read oauth code: " ⧺ e) [] 1 (inl refl)
  with_line-IsExplaining next panic h = λ written k le. tt

  with_code-IsExplaining :
      (code : String) (next : String → Command W)
      → ((line : String) → IsExplaining (next line))
      → IsExplaining (with_code o code next)
  unfolding with_code
  with_code-IsExplaining code next h =
      if-IsExplaining (is_empty (trim_space code)) _ _
        (print-IsExplaining _ (read_line_with_context o next) λ written k le.
          with_line-IsExplaining next (line_of (o.read_line k.world).0) h written
            (record k { world = (o.read_line k.world).1 }) le)
        (h (trim_space code))

  complete_with-IsExplaining :
      (auth : AuthService W) (prepared : PrepareLoginOutput) (code : String)
      → IsExplaining (complete_with o auth prepared code)
  unfolding complete_with
  complete_with-IsExplaining auth prepared code =
      call-IsExplaining
        (auth.complete_login (record {
          auth_code = normalize_code o.query code;
          state = prepared.state;
          code_verifier = prepared.code_verifier;
          redirect_uri = "";
        }))
        (give_up "failed to complete oauth login") (logged_in o)
        (give_up-IsExplaining "failed to complete oauth login")
        λ result. print-IsExplaining _ (exit 0) exit-IsExplaining

  pub execute_login_flow-IsExplaining :
      (auth : AuthService W) (open_it : Bool) (code : String)
      → IsExplaining (execute_login_flow o auth open_it code)
  unfolding execute_login_flow
  execute_login_flow-IsExplaining auth open_it code =
      call-IsExplaining (auth.prepare_login open_it) (give_up "failed to prepare oauth login")
        (login_prepared o auth code) (give_up-IsExplaining "failed to prepare oauth login")
        λ prepared.
          print-IsExplaining _ _
            (with_code-IsExplaining code _ (complete_with-IsExplaining auth prepared))

  pub started-IsExplaining :
      (next : Application W → Command W) (r : Result String (Application W))
      → ((app : Application W) → IsExplaining (next app))
      → IsExplaining (started o next r)
  started-IsExplaining next (ok app) h = h app
  started-IsExplaining next (err e) h =
      complain-exit ("failed to initialize app: " ⧺ e) [] 1 (inl refl)
  started-IsExplaining next panic h = λ written k le. tt

  pub parsed-IsExplaining :
      (name : String) (next : List (String × Flag) → Command W)
      (r : Result FlagError (List (String × Flag)))
      → ((flags : List (String × Flag)) → IsExplaining (next flags))
      → IsExplaining (parsed o name next r)
  parsed-IsExplaining name next (ok flags) h = h flags
  parsed-IsExplaining name next (err help) h = complain-exit (o.flag_usage name) [] 2 (inr refl)
  parsed-IsExplaining name next (err (wrong e)) h =
      complain-exit e (o.flag_usage name ∷ []) 2 (inr refl)
  parsed-IsExplaining name next panic h = λ written k le. tt

  pub run_login-IsExplaining :
      (cfg : Config) (args : List String) → IsExplaining (run_login o cfg args)
  unfolding run_login
  run_login-IsExplaining cfg args = parsed-IsExplaining "login" _ _ λ flags.
      started-IsExplaining _ (o.factory cfg) λ app. execute_login_flow-IsExplaining app.auth _ _

  pub run_status-IsExplaining : (cfg : Config) → IsExplaining (run_status o cfg)
  unfolding run_status
  run_status-IsExplaining cfg = started-IsExplaining _ (o.factory cfg) λ app.
      call-IsExplaining app.auth.status (give_up "failed to load status")
        (λ status. print (status_lines o status) (exit 0))
        (give_up-IsExplaining "failed to load status")
        λ status. print-IsExplaining (status_lines o status) (exit 0) exit-IsExplaining

  pub run_logout-IsExplaining : (cfg : Config) → IsExplaining (run_logout o cfg)
  unfolding run_logout
  run_logout-IsExplaining cfg = started-IsExplaining _ (o.factory cfg) λ app.
      call-IsExplaining app.auth.logout (give_up "failed to delete token file")
        (λ path. print (("deleted oauth session at " ⧺ path) ∷ []) (exit 0))
        (give_up-IsExplaining "failed to delete token file")
        λ path.
          print-IsExplaining (("deleted oauth session at " ⧺ path) ∷ []) (exit 0) exit-IsExplaining

  validated-IsExplaining : (cfg : Config) (r : Option String) → IsExplaining (validated o cfg r)
  validated-IsExplaining cfg none = print-IsExplaining _ (exit 0) exit-IsExplaining
  validated-IsExplaining cfg (some e) = complain-exit ("config is invalid: " ⧺ e) [] 1 (inl refl)

  pub usage-IsExplaining : IsExplaining (usage_err o (exit 2))
  usage-IsExplaining = complain-exit _ _ 2 (inr refl)

  pub run_config-IsExplaining :
      (cfg : Config) (args : List String) → IsExplaining (run_config o cfg args)
  unfolding run_config
  run_config-IsExplaining cfg [] = usage-IsExplaining
  run_config-IsExplaining cfg (arg ∷ []) =
      if-IsExplaining (arg == "validate") _ _
        (validated-IsExplaining cfg (validate o.visit o.parse_duration cfg)) usage-IsExplaining
  run_config-IsExplaining cfg (arg ∷ more ∷ args) = usage-IsExplaining
