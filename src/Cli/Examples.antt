-- ===== src/Cli/Examples.antt =====
-- internal/adapters/cli/run.go: commands over a concrete disk and provider.
pub mod Serving
use claude_oauth_proxy.Buildinfo.{development}
use claude_oauth_proxy.Tokens.{encode_token_set}
use claude_oauth_proxy.Auth.Pkce.{random_base64_url, generate_pkce}
use claude_oauth_proxy.Auth.Operations.{complete_login, prepare_login}
use claude_oauth_proxy.Base.{
  is_blank, trim_space, Option, ℕ, String, ◌≡◌, ◌⊎◌, ◌<◌, refl, none, some, List, [], ◌∷◌, pos,
  Bool, true, false, not, if◌then◌else◌, length,
}
use claude_oauth_proxy.Core.{ok}
use claude_oauth_proxy.Tokens.FileStore.{file_store, Disk}
use claude_oauth_proxy.Tokens.Examples.{write_time, saved_disk}
use claude_oauth_proxy.Auth.Examples.{service}
use claude_oauth_proxy.Auth.Operations.Login.{IsCompleted}
use claude_oauth_proxy.Auth.Interface.{AuthService, auth_service}
use claude_oauth_proxy.Runtime.Config.{Config}
use claude_oauth_proxy.Runtime.Examples.{configured, in_order, minutes}
use claude_oauth_proxy.Cli.Code.Laws.{
  IsCode, Tail, fragment, Pasted, labelled, normalize_code_pasted,
}
use claude_oauth_proxy.Cli.Code.Search.{Excludes-after}
use claude_oauth_proxy.Cli.Code.{after, normalize_code}
use claude_oauth_proxy.Cli.Console.{
  Console, Exit, exited, crashed, Reading, delimited, Outside, Application, Event, tick, meanwhile,
  closed, exit,
}
use claude_oauth_proxy.Cli.Commands.{execute_login_flow}
use claude_oauth_proxy.Cli.Commands.Login.{IsLoggedIn}
use claude_oauth_proxy.Cli.Commands.Saved.{login_input, execute_login_flow_saves}
use claude_oauth_proxy.Cli.Run.{run}
use claude_oauth_proxy.Cli.Run.Laws.{run_explained}

abbrev no_query : String → Option String
no_query s = none

-- A link with the code behind its state, copied with space, of which the query is not read.
abbrev link : String
link = " https://h/cb?state=s&code=code1#state1\n"

normalize_code_pasted_example : normalize_code no_query link ≡ "code1"
unfolding trim_space after
normalize_code_pasted_example =
    normalize_code_pasted no_query link "code1" "#state1"
      (record {
        given = refl;
        trimmed = refl;
        no_ampersand = (refl, (refl, (refl, (refl, (refl, tt)))));
        no_hash = (refl, (refl, (refl, (refl, (refl, tt)))));
      })
      (fragment "state1")
      (labelled "https://h/cb?state=s&" refl
        (Excludes-after "code=" "https://h/cb?state=s&code" refl) refl)

abbrev pub auth : AuthService Disk
auth = auth_service (λ b. b) (λ s. []) service

abbrev pub outside : Outside Disk
outside = record {
  factory = λ cfg. ok (record { auth = auth; refresh_interval = pos 0 });
  visit = in_order;
  parse_duration = minutes;
  read_line = λ w. (delimited "code1#state1\n", w);
  query = no_query;
  format_time = λ t. "2026-01-01T00:00:00Z";
  flag_usage = λ name. "Usage";
  build = development;
  serving = λ addr interval w. (tick ∷ [], closed);
}

abbrev pub console : Disk → Console Disk
console w = record { world = w; stdout = []; stderr = []; logs = [] }

-- A command that there is not.
abbrev refused : Exit × Console Disk
refused = run outside configured ("frobnicate" ∷ []) (console [])

abbrev code : ℕ
code = 2

run_explained_example :
    (code ≡ 0)
    ⊎ (((code ≡ 1) ⊎ (code ≡ 2)) × (length (console []).stderr < length refused.1.stderr))
unfolding run
run_explained_example =
    run_explained outside configured ("frobnicate" ∷ []) code (console []) refused.1 refl

abbrev logged_in : Exit × Console Disk
logged_in = execute_login_flow outside auth false "" (console [])

execute_login_flow_saves_example :
    (l : IsLoggedIn outside auth false "" (console []) logged_in.1) × IsCompleted service
      (login_input outside service (λ b. b) (λ s. []) l)
      l.asked
      l.completed
      logged_in.1.world
unfolding execute_login_flow auth_service prepare_login generate_pkce random_base64_url trim_space
    complete_login is_blank normalize_code file_store encode_token_set write_time
execute_login_flow_saves_example =
    execute_login_flow_saves outside service (λ b. b) (λ s. []) false "" (console []) logged_in.1
      refl
