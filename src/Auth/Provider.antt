-- ===== src/Auth/Provider.antt =====
-- internal/auth/service.go: `claudeOAuthProvider`, which asks the token endpoint over HTTP.
pub mod Laws
pub mod Url
pub mod Renewal
use Prim.Native.String
use mathlib.Core.Option
use claude_oauth_proxy.Base.{
  ℕ, ℤ, pos, ◌+ℤ◌, mul64, String, Bool, true, false, not, ◌||◌, Option, none, some, leb, is_blank,
  is_empty, if◌then◌else◌, names_field, [], ◌∷◌,
}
use claude_oauth_proxy.Core.{Error, new_error, Result, ok, err, panic, Action}
use claude_oauth_proxy.Json.{
  Json, null, object, string, member, end, Members, decode_struct, decode_string, decode_int64,
}
use claude_oauth_proxy.Tokens.{Time, TokenSet, second}
use claude_oauth_proxy.Auth.Types.{OauthProvider, ExchangeCodeInput, AuthorizationUrlInput}
use claude_oauth_proxy.Auth.Provider.Url.{encode_query}

pub record ProviderConfig : Type 0 where
  pub auth_url : String
  pub token_url : String
  pub client_id : String
  pub scopes : String

-- A response's body, as `io.ReadAll` and `json.Unmarshal` see it: a read error, or the text and the
-- document that it is, if it is one.
pub data Body : Type 0 where
  broken : String → Body
  read : String → Option Json → Body

pub record Response : Type 0 where
  pub status_code : ℕ
  pub body : Body

-- package net/http over the state `W`: building the POST request fails with `refused`, and sending
-- it gives a response or an error's text.
pub record HttpClient (W : Type 0) : Type 0 where
  pub refused : String → Option String
  pub post : String → Json → W → Result String Response × W

-- The fields of the token response.
pub record Reply : Type 0 where
  pub access_token : String
  pub refresh_token : String
  pub token_type : String
  pub expires_in : ℤ
  pub scope : String
  pub error : String
  pub error_desc : String

abbrev pub reply_zero : Reply
reply_zero = record {
  access_token = "";
  refresh_token = "";
  token_type = "";
  expires_in = pos 0;
  scope = "";
  error = "";
  error_desc = "";
}

set_reply_field : String → Json → Reply → Option Reply
set_reply_field key v r =
    if names_field "access_token" key
    then Option.map (λ s. record r { access_token = s }) (decode_string v r.access_token)
    else if names_field "refresh_token" key
    then Option.map (λ s. record r { refresh_token = s }) (decode_string v r.refresh_token)
    else if names_field "token_type" key
    then Option.map (λ s. record r { token_type = s }) (decode_string v r.token_type)
    else if names_field "expires_in" key
    then Option.map (λ n. record r { expires_in = n }) (decode_int64 v r.expires_in)
    else if names_field "scope" key
    then Option.map (λ s. record r { scope = s }) (decode_string v r.scope)
    else if names_field "error" key
    then Option.map (λ s. record r { error = s }) (decode_string v r.error)
    else if names_field "error_description" key
    then Option.map (λ s. record r { error_desc = s }) (decode_string v r.error_desc)
    else some r

unfoldable pub decode_reply : Json → Option Reply
unfolding set_reply_field decode_struct decode_string decode_int64 names_field Option.bind
decode_reply j = decode_struct set_reply_field j reply_zero

abbrev pub gateway : String → String → Option String → Error
gateway code message cause = new_error code 502 message cause

-- p.now().Add(time.Duration(expiresIn) * time.Second)
unfoldable pub expiry : Time → ℤ → Time
expiry now expires_in = now +ℤ mul64 expires_in second

-- What a decoded reply comes to, with the status, the body's text and the time.
unfoldable pub accept : ℕ → String → String → Time → Reply → Result Error TokenSet
unfolding expiry
accept status_code text previous now r =
    if leb 400 status_code || not (is_empty r.error)
    then err (
        gateway "TOKEN_EXCHANGE_FAILED" (if is_blank r.error_desc then text else r.error_desc) none)
    else ok (record {
      access_token = r.access_token;
      refresh_token = if is_blank r.refresh_token then previous else r.refresh_token;
      token_type = r.token_type;
      scope = r.scope;
      expires_at = expiry now r.expires_in;
    })

accept_decoded : ℕ → String → String → Time → Option Reply → Result Error TokenSet
accept_decoded status_code text previous now none =
    err (gateway "TOKEN_RESPONSE_INVALID" "decode oauth token response" (some "cannot decode"))
accept_decoded status_code text previous now (some r) = accept status_code text previous now r

accept_body : ℕ → String → Time → Body → Result Error TokenSet
accept_body status_code previous now (broken e) =
    err (gateway "TOKEN_RESPONSE_READ_FAILED" "read oauth token response" (some e))
accept_body status_code previous now (read text none) =
    err (gateway "TOKEN_RESPONSE_INVALID" "decode oauth token response" (some "not JSON"))
accept_body status_code previous now (read text (some j)) =
    accept_decoded status_code text previous now (decode_reply j)

module _ {W : Type 0} (client : HttpClient W) (cfg : ProviderConfig) (now : W → Time) where
  receive : String → Result String Response × W → Result Error TokenSet × W
  receive previous (err e, w) =
      (err (gateway "TOKEN_REQUEST_FAILED" "execute oauth token request" (some e)), w)
  receive previous (panic, w) = (panic, w)
  receive previous (ok r, w) = (accept_body r.status_code previous (now w) r.body, w)

  post_from : Option String → Json → String → Action W Error TokenSet
  post_from (some e) payload previous w =
      (err (gateway "TOKEN_REQUEST_FAILED" "build oauth token request" (some e)), w)
  post_from none payload previous w = receive previous (client.post cfg.token_url payload w)

  -- `postToken`; encoding a map of texts cannot fail.
  unfoldable pub post_token : Members → String → Action W Error TokenSet
  unfolding post_from receive accept_body accept_decoded
  post_token body previous = post_from (client.refused cfg.token_url) (object body) previous

  -- The keys are sorted, as a map is marshalled.
  unfoldable pub exchange_code : ExchangeCodeInput → Action W Error TokenSet
  unfolding post_token
  exchange_code input =
      post_token
        (member "client_id" (string cfg.client_id) (
          member "code" (string input.auth_code) (
            member "code_verifier" (string input.code_verifier) (
              member "grant_type" (string "authorization_code") (
                member "redirect_uri" (string input.redirect_uri)
                  (member "state" (string input.state) end))))))
        ""

  unfoldable pub refresh_token : String → Action W Error TokenSet
  unfolding post_token
  refresh_token token =
      post_token
        (member "client_id" (string cfg.client_id) (
          member "grant_type" (string "refresh_token") (member "refresh_token" (string token) end)))
        token

  -- `values.Encode` writes the keys in order.
  unfoldable pub authorization_url : AuthorizationUrlInput → Result Error String
  unfolding encode_query
  authorization_url input = ok (
      String.◌++◌ cfg.auth_url (
        String.◌++◌ "?" (
          encode_query (
            ("client_id", cfg.client_id)
            ∷ ("code_challenge", input.code_challenge)
            ∷ ("code_challenge_method", "S256")
            ∷ ("redirect_uri", input.redirect_uri)
            ∷ ("response_type", "code")
            ∷ ("scope", cfg.scopes)
            ∷ ("state", input.state)
            ∷ []))))

  unfoldable pub claude_oauth_provider : OauthProvider W
  unfolding authorization_url exchange_code refresh_token
  claude_oauth_provider = record {
    authorization_url = authorization_url;
    exchange_code = exchange_code;
    refresh_token = refresh_token;
  }
