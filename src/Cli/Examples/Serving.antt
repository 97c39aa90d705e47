-- ===== src/Cli/Examples/Serving.antt =====
-- internal/adapters/cli/run.go: `serve` over a concrete disk and provider.
use claude_oauth_proxy.Base.{
  pos, put, remove, get, String, ◌≡◌, ◌⊎◌, refl, List, [], ◌∷◌, true, false, is_blank,
}
use claude_oauth_proxy.Core.{ok}
use claude_oauth_proxy.Tokens.{
  decode_token_set, encode_token_set, expired, encode_token_set, missing, TokenSet,
}
use claude_oauth_proxy.Tokens.FileStore.{file_store, file_store, Disk}
use claude_oauth_proxy.Tokens.Examples.{read_time, write_time, write_time, session, saved_disk}
use claude_oauth_proxy.Auth.Examples.{service, file-StoreLaws, answering, next_session}
use claude_oauth_proxy.Auth.Interface.{auth_service}
use claude_oauth_proxy.Runtime.Examples.{configured}
use claude_oauth_proxy.Cli.Flags.{word_of, switch_of, Flag}
use claude_oauth_proxy.Cli.Console.{Console, tick, meanwhile, Application, exit}
use claude_oauth_proxy.Cli.Commands.{with_app}
use claude_oauth_proxy.Cli.Serve.{auto_refresh, serve_with, listen, run_serve, ensure_login}
use claude_oauth_proxy.Cli.Serve.Gate.{Admitted, Refused, serve_with_gate}
use claude_oauth_proxy.Cli.Serve.Refresh.{HasSession, HasFreshSession, IsRenewed, auto_refresh_live}
use claude_oauth_proxy.Cli.Serve.Arguments.{ServeOptions, command_line, run_serve-command_line}
use claude_oauth_proxy.Cli.Serve.Arguments
use claude_oauth_proxy.Cli.Examples.{auth, outside, console}

abbrev app : Application Disk
app = record { auth = auth; refresh_interval = pos 0 }

abbrev none_set : List (String × Flag)
none_set = []

serve_with_gate_example :
    ((mid : Console Disk) × Admitted outside configured auth true "" false (console saved_disk) mid
      × (serve_with outside configured none_set app (console saved_disk)
          ≡ listen outside configured app mid))
    ⊎ Refused outside configured auth true ""
        (serve_with outside configured none_set app (console saved_disk))
unfolding switch_of word_of get
serve_with_gate_example = serve_with_gate outside configured none_set app (console saved_disk)

abbrev asked : ServeOptions
asked = record {
  listen_addr = ":80";
  api_key = "-k";
  relogin = false;
  no_browser = true;
  code = "c";
  cost_tracking = true;
}

run_serve-command_line_example :
    run_serve outside configured (command_line asked)
    ≡ with_app outside (Arguments.configured asked configured) λ app.
      ensure_login outside
        (Arguments.configured asked configured)
        app.auth
        false
        "c"
        (listen outside (Arguments.configured asked configured) app)
run_serve-command_line_example = run_serve-command_line outside configured asked

renews :
    (t : TokenSet) (w : Disk)
    → service.store.load w ≡ ok t
    → is_blank t.refresh_token ≡ false
    → IsRenewed service t w
unfolding missing file_store encode_token_set write_time expired
renews t w l h = record {
  provider = answering next_session;
  new = next_session;
  between = w;
  after = _;
  present = refl;
  replied = refl;
  given = refl;
  saved = refl;
  fresh = refl;
}

saved-HasSession : HasSession service saved_disk
unfolding file_store get encode_token_set write_time remove put decode_token_set read_time is_blank
saved-HasSession = record { tokens = session; loaded = refl; refreshable = refl }

auto_refresh_live_example :
    (w : Disk) × HasFreshSession service w
    × (auto_refresh
          (auth_service (λ b. b) (λ s. []) service)
          (meanwhile (λ w. w) ∷ tick ∷ [])
          (exit 0)
          (console saved_disk)
        ≡ exit 0 (record (console saved_disk) { world = w }))
auto_refresh_live_example =
    auto_refresh_live service file-StoreLaws renews (λ b. b) (λ s. []) (meanwhile (λ w. w) ∷ [])
      (exit 0) (console saved_disk) (λ w h. h, tt) saved-HasSession
