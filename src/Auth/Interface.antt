-- ===== src/Auth/Interface.antt =====
-- internal/auth/service.go: the interface `Service`, the service behind it, and `WithLogging`.
pub mod Laws
use claude_oauth_proxy.Base.{ℕ, ℤ, String, Bool, List}
use claude_oauth_proxy.Core.{Error, Action}
use claude_oauth_proxy.Logging.{Logged, with_auth_operation}
use claude_oauth_proxy.Auth.Types.{
  PrepareLoginOutput, CompleteLoginInput, CompleteLoginOutput, StatusOutput, AccessTokenOutput,
}
use claude_oauth_proxy.Auth.Operations
use claude_oauth_proxy.Auth.Types

-- `OpenBrowser` and `ForceRefresh` are the inputs that are one flag; Logout gives the token path.
pub record AuthService (W : Type 0) : Type 0 where
  pub prepare_login : Bool → Action W Error PrepareLoginOutput
  pub complete_login : CompleteLoginInput → Action W Error CompleteLoginOutput
  pub status : Action W Error StatusOutput
  pub logout : Action W Error String
  pub access_token : Bool → Action W Error AccessTokenOutput

unfoldable pub auth_service :
    {W : Type 0} → (List ℕ → List ℕ) → (String → List ℕ) → Types.Service W → AuthService W
auth_service sha256 bytes s = record {
  prepare_login = Operations.prepare_login sha256 bytes s;
  complete_login = Operations.complete_login s;
  status = Operations.status s;
  logout = Operations.logout s;
  access_token = Operations.access_token s;
}

-- `WithLoggingClock` on a service that is there.
unfoldable pub with_logging :
    {W : Type 0} → (W → ℤ) → (ℤ → ℤ → ℤ) → AuthService W → AuthService (Logged W)
with_logging now elapsed_ms next = record {
  prepare_login = λ open_it.
      with_auth_operation now elapsed_ms "auth.prepare_login" (next.prepare_login open_it);
  complete_login =
      λ input. with_auth_operation now elapsed_ms "auth.complete_login" (next.complete_login input);
  status = with_auth_operation now elapsed_ms "auth.status" next.status;
  logout = with_auth_operation now elapsed_ms "auth.logout" next.logout;
  access_token =
      λ force. with_auth_operation now elapsed_ms "auth.access_token" (next.access_token force);
}
