-- ===== src/Tokens/Codec.antt =====
-- internal/tokens/store.go: the two JSON forms of a token file.
use Prim.Native.String
use mathlib.Core.Option
use claude_oauth_proxy.Base.{
  ◌≡◌, String, Option, none, some, List, [], ◌∷◌, if◌then◌else◌, names_field,
}
use claude_oauth_proxy.Json.{
  Json, null, string, object, end, member, decode_string, decode_int64, decode_strings,
  decode_struct,
}
use claude_oauth_proxy.Tokens.Types.{Time, TokenSet, token_zero, ClaudeOauth, oauth_zero, unix}

-- The RFC 3339 form of an instant, as `time.Time` is written in JSON: years 0 to 9999 only.
pub record TimeFormat : Type 0 where
  pub format : Time → Option String
  pub parse : String → Option Time
  pub parse-format : (t : Time) {s : String} → format t ≡ some s → parse s ≡ some t

-- strings.Join(parts, " ")
abbrev pub join : List String → String
join [] = ""
join (s ∷ []) = s
join (s ∷ rest) = String.◌++◌ s (String.◌++◌ " " (join rest))

unfoldable pub to_token_set : ClaudeOauth → TokenSet
unfolding unix
to_token_set c = record {
  access_token = c.access_token;
  refresh_token = c.refresh_token;
  token_type = "Bearer";
  scope = join c.scopes;
  expires_at = unix c.expires_at;
}

set_oauth_field : String → Json → ClaudeOauth → Option ClaudeOauth
set_oauth_field key v c =
    if names_field "accessToken" key
    then Option.map (λ s. record c { access_token = s }) (decode_string v c.access_token)
    else if names_field "refreshToken" key
    then Option.map (λ s. record c { refresh_token = s }) (decode_string v c.refresh_token)
    else if names_field "expiresAt" key
    then Option.map (λ n. record c { expires_at = n }) (decode_int64 v c.expires_at)
    else if names_field "scopes" key
    then Option.map (λ l. record c { scopes = l }) (decode_strings v c.scopes)
    else some c

-- `claudeCredentials` holds one pointer, which `null` clears.
abbrev pointed : Option ClaudeOauth → ClaudeOauth
pointed none = oauth_zero
pointed (some c) = c

set_pointer : Json → Option ClaudeOauth → Option (Option ClaudeOauth)
set_pointer null old = some none
set_pointer v old = Option.map some (decode_struct set_oauth_field v (pointed old))

set_credentials_field : String → Json → Option ClaudeOauth → Option (Option ClaudeOauth)
set_credentials_field key v c = if names_field "claudeAiOauth" key then set_pointer v c else some c

unfoldable pub decode_credentials : Json → Option (Option ClaudeOauth)
unfolding set_credentials_field set_pointer set_oauth_field decode_struct decode_string decode_int64
    decode_strings names_field Option.bind
decode_credentials j = decode_struct set_credentials_field j none

module _ (tf : TimeFormat) where
  decode_time : Json → Time → Option Time
  decode_time null old = some old
  decode_time (string s) old = tf.parse s
  decode_time _ old = none

  set_token_field : String → Json → TokenSet → Option TokenSet
  set_token_field key v t =
      if names_field "access_token" key
      then Option.map (λ s. record t { access_token = s }) (decode_string v t.access_token)
      else if names_field "refresh_token" key
      then Option.map (λ s. record t { refresh_token = s }) (decode_string v t.refresh_token)
      else if names_field "token_type" key
      then Option.map (λ s. record t { token_type = s }) (decode_string v t.token_type)
      else if names_field "scope" key
      then Option.map (λ s. record t { scope = s }) (decode_string v t.scope)
      else if names_field "expires_at" key
      then Option.map (λ a. record t { expires_at = a }) (decode_time v t.expires_at)
      else some t

  unfoldable pub decode_token_set : Json → Option TokenSet
  unfolding set_token_field decode_time decode_struct decode_string names_field Option.bind
  decode_token_set j = decode_struct set_token_field j token_zero

  token_document : TokenSet → String → Json
  token_document t expires = object (
      member "access_token" (string t.access_token) (
        member "refresh_token" (string t.refresh_token) (
          member "token_type" (string t.token_type)
            (member "scope" (string t.scope) (member "expires_at" (string expires) end)))))

  -- json.MarshalIndent; it fails where the instant has no RFC 3339 form.
  unfoldable pub encode_token_set : TokenSet → Option Json
  unfolding token_document
  encode_token_set t = Option.map (token_document t) (tf.format t.expires_at)

  decode-token_document :
      (t : TokenSet) (s : String)
      → tf.parse s ≡ some t.expires_at
      → decode_token_set (token_document t s) ≡ some t
  unfolding decode_token_set token_document
  decode-token_document t s p = rw p

  pub decode-encode_token_set :
      (t : TokenSet) (j : Json) → encode_token_set t ≡ some j → decode_token_set j ≡ some t
  unfolding encode_token_set
  decode-encode_token_set t j e =
      let (s, formatted, same) = (Option.map-eq-some_iff _ _).0 e in
      rw (← same) (decode-token_document t s (tf.parse-format t.expires_at formatted))

  -- The native form has no Claude CLI session in it.
  pub decode_credentials-encode_token_set :
      (t : TokenSet) (j : Json) → encode_token_set t ≡ some j → decode_credentials j ≡ some none
  unfolding encode_token_set decode_credentials
  decode_credentials-encode_token_set t j e =
      let (s, formatted, same) = (Option.map-eq-some_iff _ _).0 e in rw (← same)
