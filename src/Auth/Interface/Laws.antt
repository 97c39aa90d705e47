-- ===== src/Auth/Interface/Laws.antt =====
-- internal/auth/service.go: the service with logging behaves as the one behind it.
use claude_oauth_proxy.Base.{ℤ, String, Bool, ◌≡◌}
use claude_oauth_proxy.Core.{Error, Action}
use claude_oauth_proxy.Logging.{Logged}
use claude_oauth_proxy.Logging.Laws.{with_auth_operation_lem}
use claude_oauth_proxy.Auth.Types.{CompleteLoginInput}
use claude_oauth_proxy.Auth.Interface.{with_auth_operation, AuthService, with_logging}

-- A call on a state `V`, of which `view` is what the other call works on.
abbrev Simulates : {V W A : Type 0} → (V → W) → Action V Error A → Action W Error A → Type 0
Simulates {V} view detailed abstract =
    (v : V)
    → ((detailed v).0 ≡ (abstract (view v)).0) × (view (detailed v).1 ≡ (abstract (view v)).1)

pub record Refines {V W : Type 0} (view : V → W) (detailed : AuthService V)
    (abstract : AuthService W) : Type 0 where
  pub prepare_login :
      (open_it : Bool)
      → Simulates view (detailed.prepare_login open_it) (abstract.prepare_login open_it)
  pub complete_login :
      (input : CompleteLoginInput)
      → Simulates view (detailed.complete_login input) (abstract.complete_login input)
  pub status : Simulates view detailed.status abstract.status
  pub logout : Simulates view detailed.logout abstract.logout
  pub access_token :
      (force : Bool) → Simulates view (detailed.access_token force) (abstract.access_token force)

module _ {W : Type 0} (now : W → ℤ) (elapsed_ms : ℤ → ℤ → ℤ) where
  same :
      {A : Type 0} (operation : String) (run : Action W Error A)
      → Simulates (λ (l : Logged W). l.world) (with_auth_operation now elapsed_ms operation run) run
  same operation run l =
      let (result, world, _) = with_auth_operation_lem now elapsed_ms operation run l in
      (result, world)

  -- The service with logging refines the service behind it: whatever is called, the result and the
  -- state that the service reaches are those of the call without logging.
  pub with_logging-Refines :
      (next : AuthService W)
      → Refines (λ (l : Logged W). l.world) (with_logging now elapsed_ms next) next
  unfolding with_logging
  with_logging-Refines next = record {
    prepare_login = λ open_it. same "auth.prepare_login" (next.prepare_login open_it);
    complete_login = λ input. same "auth.complete_login" (next.complete_login input);
    status = same "auth.status" next.status;
    logout = same "auth.logout" next.logout;
    access_token = λ force. same "auth.access_token" (next.access_token force);
  }
