-- ===== src/Cli/Commands/Saved.antt =====
-- internal/adapters/cli/run.go over internal/auth/service.go: a login that exits with 0 has saved tokens.
use claude_oauth_proxy.Base.{ℕ, String, List, Bool, ◌≡◌}
use claude_oauth_proxy.Auth.{Service, CompleteLoginInput}
use claude_oauth_proxy.Auth.Operations.Login.{IsCompleted, complete_login_outcome}
use claude_oauth_proxy.Auth.Interface.{auth_service}
use claude_oauth_proxy.Cli.Code.{normalize_code}
use claude_oauth_proxy.Cli.Console.{Console, exited, Outside}
use claude_oauth_proxy.Cli.Commands.{execute_login_flow}
use claude_oauth_proxy.Cli.Commands.Login.{IsLoggedIn, execute_login_flow_outcome}

module _ {W : Type 0} (o : Outside W) (s : Service W) (sha256 : List ℕ → List ℕ)
    (bytes : String → List ℕ) where
  -- The input of CompleteLogin that the flow makes of what was prepared and pasted.
  abbrev pub login_input :
      {open_it : Bool} {code : String} {k k' : Console W}
      → IsLoggedIn o (auth_service sha256 bytes s) open_it code k k'
      → CompleteLoginInput
  login_input l = record {
    auth_code = normalize_code o.query l.pasted;
    state = l.prepared.state;
    code_verifier = l.prepared.code_verifier;
    redirect_uri = "";
  }

  -- Over the auth service: a login flow that ends with exit code 0 has prepared a login, taken the
  -- code of the flag or else of the line that was read, and written nothing on stderr; the provider
  -- gave tokens for that code, as normalizeCode finds it, with the state and the verifier of the
  -- login that was prepared, and the tokens were saved.
  pub execute_login_flow_saves :
      (open_it : Bool) (code : String) (k k' : Console W)
      → execute_login_flow o (auth_service sha256 bytes s) open_it code k ≡ (exited 0, k')
      → (l : IsLoggedIn o (auth_service sha256 bytes s) open_it code k k') × IsCompleted s
          (login_input l)
          l.asked
          l.completed
          k'.world
  unfolding auth_service
  execute_login_flow_saves open_it code k k' h =
      let l = execute_login_flow_outcome o (auth_service sha256 bytes s) open_it code k k' h in
      (l, complete_login_outcome s (login_input l) l.asked k'.world l.completed l.complete)
