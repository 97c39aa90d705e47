-- ===== src/Cli/Console.antt =====
-- internal/adapters/cli/run.go: what a command reads, writes and reaches.
use claude_oauth_proxy.Buildinfo.{BuildInfo}
use claude_oauth_proxy.Base.{◌⊎◌, ℕ, String, ◌⧺◌, Option, some, List, [], ◌∷◌, ◌++◌}
use claude_oauth_proxy.Core.{Error, error_text, Result, ok, err, panic, Action}
use claude_oauth_proxy.Tokens.{Time, Duration}
use claude_oauth_proxy.Logging.{Entry}
use claude_oauth_proxy.Auth.Interface.{AuthService}
use claude_oauth_proxy.Runtime.Config.{Config}

-- What has been written, with the state that the services reach and the log.
pub record Console (W : Type 0) : Type 0 where
  pub world : W
  pub stdout : List String
  pub stderr : List String
  pub logs : List Entry

-- How a command ends: with an exit code, or by a panic.
pub data Exit : Type 0 where
  exited : ℕ → Exit
  crashed : Exit

abbrev pub Command : Type 0 → Type 0
Command W = Console W → Exit × Console W

-- What `reader.ReadString('\n')` does before the context ends, or that the context ends first.
pub data Reading : Type 0 where
  delimited : String → Reading
  at_end : String → Reading
  unreadable : String → Reading
  cancelled : String → Reading

-- What happens while the server runs: a tick of the refresh loop, or anything else that changes the
-- state (a request, time).
pub data Event (W : Type 0) : Type 0 where
  tick : Event W
  meanwhile : (W → W) → Event W

-- How `ListenAndServe` ends.
pub data Ending : Type 0 where
  closed : Ending
  failed_with : String → Ending

-- `App` as far as the commands use it.
pub record Application (W : Type 0) : Type 0 where
  pub auth : AuthService W
  pub refresh_interval : Duration

-- What the commands are given: the factory of the application, the order in which a loop meets the
-- entries of a map, time.ParseDuration, a line of standard input, the code in a URL's query, the RFC
-- 3339 form of a time, the usage of a command's flags, the version, and, for a server at an address with
-- a refresh interval, what happens until it ends, and how it ends.
pub record Outside (W : Type 0) : Type 0 where
  pub factory : Config → Result String (Application W)
  pub visit : List (String × String) → List (String × String)
  pub parse_duration : String → String ⊎ Duration
  pub read_line : W → Reading × W
  pub query : String → Option String
  pub format_time : Time → String
  pub flag_usage : String → String
  pub build : BuildInfo
  pub serving : String → Duration → W → List (Event W) × Ending

module _ {W : Type 0} where
  abbrev pub exit : ℕ → Command W
  exit n k = (exited n, k)

  abbrev pub crash : Command W
  crash k = (crashed, k)

  -- Lines on stdout and on stderr, and then the rest.
  abbrev pub print : List String → Command W → Command W
  print lines next k = next (record k { stdout = k.stdout ++ lines })

  abbrev pub complain : List String → Command W → Command W
  complain lines next k = next (record k { stderr = k.stderr ++ lines })

  abbrev pub log : Entry → Command W → Command W
  log e next k = next (record k { logs = k.logs ++ e ∷ [] })

  abbrev pub resume :
      {A : Type 0}
      → (Error → Command W)
      → (A → Command W)
      → Console W
      → Result Error A × W
      → Exit × Console W
  resume failed next k (ok a, w) = next a (record k { world = w })
  resume failed next k (err e, w) = failed e (record k { world = w })
  resume failed next k (panic, w) = (crashed, record k { world = w })

  -- A call of the auth service, and what follows an error or a result.
  abbrev pub call :
      {A : Type 0} → Action W Error A → (Error → Command W) → (A → Command W) → Command W
  call m failed next k = resume failed next k (m k.world)

  -- `fmt.Fprintf(stderr, message, apiErr)` and `return 1`.
  abbrev pub give_up : String → Error → Command W
  give_up message e = complain ((message ⧺ ": " ⧺ error_text (some e)) ∷ []) (exit 1)
