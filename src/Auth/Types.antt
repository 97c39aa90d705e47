-- ===== src/Auth/Types.antt =====
-- internal/auth/service.go: the inputs and outputs of the service, its interfaces and its errors.
use claude_oauth_proxy.Base.{ℕ, pos, String, Bool, Option, some, List, leb_ℤ, if◌then◌else◌}
use claude_oauth_proxy.Core.{Error, new_error, Result, ok, err, panic, Action}
use claude_oauth_proxy.Tokens.{Time, Duration, TokenSet, Store, IoError, not_exist, invalid, other}

pub record AuthorizationUrlInput : Type 0 where
  pub state : String
  pub code_challenge : String
  pub redirect_uri : String

pub record ExchangeCodeInput : Type 0 where
  pub auth_code : String
  pub state : String
  pub code_verifier : String
  pub redirect_uri : String

pub record PrepareLoginOutput : Type 0 where
  pub auth_url : String
  pub state : String
  pub code_verifier : String

pub record CompleteLoginInput : Type 0 where
  pub auth_code : String
  pub state : String
  pub code_verifier : String
  pub redirect_uri : String

pub record CompleteLoginOutput : Type 0 where
  pub token_path : String
  pub expires_at : Time

pub record StatusOutput : Type 0 where
  pub token_path : String
  pub exists : Bool
  pub expires_at : Time
  pub is_expired : Bool

pub record AccessTokenOutput : Type 0 where
  pub token : String
  pub expires_at : Time

pub record Config : Type 0 where
  pub redirect_uri : String
  pub refresh_skew : Duration

-- The interface `OAuthProvider`; `RefreshTokenInput` is its one field.
pub record OauthProvider (W : Type 0) : Type 0 where
  pub authorization_url : AuthorizationUrlInput → Result Error String
  pub exchange_code : ExchangeCodeInput → Action W Error TokenSet
  pub refresh_token : String → Action W Error TokenSet

-- `provider` and `opener` may be nil. `now` reads the clock, `random` fills so many bytes from
-- `randomReader`, and the browser's error is dropped.
pub record Service (W : Type 0) : Type 0 where
  pub store : Store W
  pub provider : Option (OauthProvider W)
  pub opener : Option (String → W → W)
  pub now : W → Time
  pub random : ℕ → Action W IoError (List ℕ)
  pub cfg : Config

-- `NewService`; the clock is always given.
unfoldable pub new_service : {W : Type 0} → Service W → Service W
new_service s = record s {
  cfg = record {
    redirect_uri = s.cfg.redirect_uri;
    refresh_skew =
        if leb_ℤ s.cfg.refresh_skew (pos 0) then pos 300000000000 else s.cfg.refresh_skew;
  };
}

abbrev pub io_text : IoError → String
io_text not_exist = "file does not exist"
io_text invalid = "invalid argument"
io_text (other s) = s

module _ {W A : Type 0} where
  abbrev pub wrapped : String → String → Result IoError A × W → Result Error A × W
  wrapped code message (ok a, w) = (ok a, w)
  wrapped code message (err e, w) = (err (new_error code 500 message (some (io_text e))), w)
  wrapped code message (panic, w) = (panic, w)

-- A file error, given on as an API error.
abbrev pub wrap : {W A : Type 0} → String → String → Action W IoError A → Action W Error A
wrap code message m w = wrapped code message (m w)
