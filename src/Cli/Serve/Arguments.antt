-- ===== src/Cli/Serve/Arguments.antt =====
-- internal/adapters/cli/run.go: what `serve` takes from its arguments.
use claude_oauth_proxy.Core.{ok}
use claude_oauth_proxy.Base.{
  get, put, ◌≡◌, refl, String, List, [], ◌∷◌, Bool, true, false, not, if◌then◌else◌,
}
use claude_oauth_proxy.Runtime.Config.{Config}
use claude_oauth_proxy.Cli.Flags.{Flag, word, switch, parse_flags, parse_bool, word_of, switch_of}
use claude_oauth_proxy.Cli.Console.{Outside}
use claude_oauth_proxy.Cli.Commands.{with_app}
use claude_oauth_proxy.Cli.Serve.{run_serve, serve_with, serve_flags, log_in, listen, ensure_login}

pub record ServeOptions : Type 0 where
  pub listen_addr : String
  pub api_key : String
  pub relogin : Bool
  pub no_browser : Bool
  pub code : String
  pub cost_tracking : Bool

abbrev when : Bool → String → List String → List String
when on name rest = if on then name ∷ rest else rest

-- The options, written as arguments.
pub command_line : ServeOptions → List String
command_line o =
    "--listen-addr"
    ∷ o.listen_addr
    ∷ "-api-key"
    ∷ o.api_key
    ∷ when o.relogin "--relogin" (
        when o.no_browser "-no-browser" (
          (if o.cost_tracking then "--cost-tracking=true" else "-cost-tracking=false")
          ∷ "--code"
          ∷ o.code
          ∷ []))

abbrev pub configured : ServeOptions → Config → Config
configured a cfg = record cfg {
  listen_addr = a.listen_addr;
  api_key = a.api_key;
  cost_tracking = a.cost_tracking;
}

abbrev flags_of : ServeOptions → Config → List (String × Flag)
flags_of a cfg =
    ("listen-addr", word a.listen_addr)
    ∷ ("api-key", word a.api_key)
    ∷ ("relogin", switch a.relogin)
    ∷ ("no-browser", switch a.no_browser)
    ∷ ("code", word a.code)
    ∷ ("cost-tracking", switch a.cost_tracking)
    ∷ []

parse_flags-command_line :
    (cfg : Config) (a : ServeOptions)
    → parse_flags (serve_flags cfg) (command_line a) ≡ ok (flags_of a cfg)
unfolding parse_flags command_line get put parse_bool
parse_flags-command_line cfg a = go a.relogin a.no_browser a.cost_tracking
  where
    given : Bool → Bool → Bool → ServeOptions
    given r n t = record a { relogin = r; no_browser = n; cost_tracking = t }

    go :
        (r n t : Bool)
        → parse_flags (serve_flags cfg) (command_line (given r n t))
          ≡ ok (flags_of (given r n t) cfg)
    go true true true = refl
    go true true false = refl
    go true false true = refl
    go true false false = refl
    go false true true = refl
    go false true false = refl
    go false false true = refl
    go false false false = refl

module _ {W : Type 0} (o : Outside W) (cfg : Config) where
  -- Any address, key and code, also those that begin with a dash, and any choice of the switches
  -- can be written as arguments of serve: it builds the application of the configuration with them,
  -- with cost tracking on or off as it was asked for whatever the configuration has, and logs in or
  -- looks for a session with the browser and the code that were asked for.
  pub run_serve-command_line :
      (a : ServeOptions)
      → run_serve o cfg (command_line a)
        ≡ with_app o (configured a cfg) λ app.
          if a.relogin
          then log_in o app.auth (not a.no_browser) a.code (listen o (configured a cfg) app)
          else ensure_login o
              (configured a cfg)
              app.auth
              (not a.no_browser)
              a.code
              (listen o (configured a cfg) app)
  unfolding run_serve serve_with word_of switch_of get
  run_serve-command_line a = rw (run_serve, parse_flags-command_line cfg a) refl
