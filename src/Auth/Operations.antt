-- ===== src/Auth/Operations.antt =====
-- internal/auth/service.go: the five operations of the service.
pub mod Laws
pub mod Login
pub mod Lockout
use claude_oauth_proxy.Base.{
  ℕ, List, pos, String, Bool, true, false, not, ◌&&◌, Option, none, some, if◌then◌else◌, is_blank,
  trim_space, ℕ, List,
}
use claude_oauth_proxy.Core.{
  Error, new_error, Result, ok, err, panic, Action, pure, fail, lift, ◌>>=◌,
}
use claude_oauth_proxy.Tokens.{TokenSet, expired, IoError, not_exist}
use claude_oauth_proxy.Auth.Types.{
  Service, OauthProvider, PrepareLoginOutput, CompleteLoginInput, CompleteLoginOutput, StatusOutput,
  AccessTokenOutput, wrap, io_text,
}
use claude_oauth_proxy.Auth.Pkce.{Pkce, generate_pkce, random_base64_url}

abbrev pub api_error : String → String → Error
api_error code message = new_error code 500 message none

-- What `errors.Is(err, os.ErrNotExist)` tells apart.
missing_or_failed : IoError → Error
missing_or_failed not_exist =
    new_error "TOKEN_MISSING" 503 "no saved claude oauth tokens were found"
      (some (io_text not_exist))
missing_or_failed e = new_error "TOKEN_LOAD_FAILED" 500 "load tokens" (some (io_text e))

module _ {W : Type 0} where
  open_browser : Bool → Option (String → W → W) → String → Action W Error (Unit {0})
  open_browser true (some open_url) url w = (ok tt, open_url url w)
  open_browser _ _ url w = (ok tt, w)

  module _ (sha256 : List ℕ → List ℕ) (bytes : String → List ℕ) (s : Service W) where
    prepare_with : Bool → OauthProvider W → Action W Error PrepareLoginOutput
    prepare_with open_it p = do
      pkce ←
          wrap "PKCE_GENERATION_FAILED" "generate pkce challenge"
            (generate_pkce s.random sha256 bytes)
      state ← wrap "STATE_GENERATION_FAILED" "generate oauth state" (random_base64_url s.random 32)
      url ← lift (
          p.authorization_url (record {
            state = state;
            code_challenge = pkce.challenge;
            redirect_uri = s.cfg.redirect_uri;
          }))
      opened ← open_browser open_it s.opener url
      pure (record { auth_url = url; state = state; code_verifier = pkce.verifier })

    prepare_from : Bool → Option (OauthProvider W) → Action W Error PrepareLoginOutput
    prepare_from open_it none = fail (api_error "AUTH_UNAVAILABLE" "auth service is unavailable")
    prepare_from open_it (some p) = prepare_with open_it p

    unfoldable pub prepare_login : Bool → Action W Error PrepareLoginOutput
    unfolding prepare_from prepare_with open_browser
    prepare_login open_it = prepare_from open_it s.provider

  module _ (s : Service W) where
    -- A nil provider is called: a panic.
    abbrev pub call_provider :
        {A : Type 0}
        → (OauthProvider W → Action W Error A)
        → Option (OauthProvider W)
        → Action W Error A
    call_provider f none w = (panic, w)
    call_provider f (some p) w = f p w

    save_login : TokenSet → Action W Error CompleteLoginOutput
    save_login t = do
      saved ← wrap "TOKEN_SAVE_FAILED" "save tokens" (s.store.save t)
      pure (record { token_path = s.store.path; expires_at = t.expires_at })

    exchange : CompleteLoginInput → Action W Error CompleteLoginOutput
    exchange input = do
      t ←
          call_provider
            (λ p. p.exchange_code (record {
              auth_code = trim_space input.auth_code;
              state = input.state;
              code_verifier = input.code_verifier;
              redirect_uri =
                  if is_blank input.redirect_uri then s.cfg.redirect_uri else input.redirect_uri;
            }))
            s.provider
      save_login t

    unfoldable pub complete_login : CompleteLoginInput → Action W Error CompleteLoginOutput
    unfolding exchange save_login
    complete_login input =
        if is_blank input.auth_code
        then fail (new_error "CODE_REQUIRED" 400 "oauth authorization code is required" none)
        else exchange input

    unfoldable pub status_of : Result IoError TokenSet → Action W Error StatusOutput
    status_of (err not_exist) w = (
      ok (record {
        token_path = s.store.path;
        exists = false;
        expires_at = pos 0;
        is_expired = false;
      }),
      w,
    )
    status_of (err e) w =
        (err (new_error "TOKEN_LOAD_FAILED" 500 "load tokens" (some (io_text e))), w)
    status_of panic w = (panic, w)
    status_of (ok t) w = (
      ok (record {
        token_path = s.store.path;
        exists = true;
        expires_at = t.expires_at;
        is_expired = expired (s.now w) s.cfg.refresh_skew t;
      }),
      w,
    )

    unfoldable pub status : Action W Error StatusOutput
    unfolding status_of
    status w = status_of (s.store.load w) w

    unfoldable pub logout : Action W Error String
    logout = do
      deleted ← wrap "TOKEN_DELETE_FAILED" "delete token file" s.store.delete
      pure s.store.path

    -- The refresh token of a reply that has none is the one that was sent.
    abbrev pub keep_refresh : TokenSet → TokenSet → TokenSet
    keep_refresh old new = record new {
      refresh_token = if is_blank new.refresh_token then old.refresh_token else new.refresh_token;
    }

    abbrev pub token_output : TokenSet → AccessTokenOutput
    token_output t = record { token = t.access_token; expires_at = t.expires_at }

    save_refreshed : TokenSet → TokenSet → Action W Error AccessTokenOutput
    save_refreshed old new = do
      saved ← wrap "TOKEN_SAVE_FAILED" "save refreshed tokens" (s.store.save (keep_refresh old new))
      pure (token_output (keep_refresh old new))

    ask_refresh : TokenSet → Option (OauthProvider W) → Action W Error TokenSet
    ask_refresh t = call_provider (λ p. p.refresh_token t.refresh_token)

    unfoldable pub refresh : TokenSet → Action W Error AccessTokenOutput
    unfolding save_refreshed ask_refresh
    refresh t = do new ← ask_refresh t s.provider; save_refreshed t new

    use_or_refresh : Bool → Result IoError TokenSet → Action W Error AccessTokenOutput
    use_or_refresh force (err e) w = (err (missing_or_failed e), w)
    use_or_refresh force panic w = (panic, w)
    use_or_refresh force (ok t) w =
        if not force && not (expired (s.now w) s.cfg.refresh_skew t)
        then (ok (token_output t), w)
        else if is_blank t.refresh_token
        then (err (new_error "REFRESH_TOKEN_MISSING" 503 "refresh token is missing" none), w)
        else refresh t w

    -- The mutex makes a call one step.
    unfoldable pub access_token : Bool → Action W Error AccessTokenOutput
    unfolding use_or_refresh missing_or_failed
    access_token force w = use_or_refresh force (s.store.load w) w
