-- ===== src/Auth/Examples/Renewal.antt =====
-- internal/auth/service.go: a session that is renewed over HTTP.
use claude_oauth_proxy.Base.{
  ◌*ℤ◌, wrap64, mul64, ◌+ℤ◌, is_blank, put, remove, get, none, some, refl, ◌≡◌, ◌⊎◌, true, false,
}
use claude_oauth_proxy.Core.{ok}
use claude_oauth_proxy.Json.{object, string, member, end, decode_string, decode_struct}
use claude_oauth_proxy.Tokens.{decode_token_set, encode_token_set, Time}
use claude_oauth_proxy.Tokens.FileStore.{Disk, file_store, load, save}
use claude_oauth_proxy.Tokens.Examples.{session, saved_disk, new_year, write_time, read_time}
use claude_oauth_proxy.Auth.Types.{Service, AccessTokenOutput}
use claude_oauth_proxy.Auth.Operations.{refresh, access_token}
use claude_oauth_proxy.Auth.Operations.Laws.{IsFresh}
use claude_oauth_proxy.Auth.Provider.{
  ProviderConfig, HttpClient, read, claude_oauth_provider, refresh_token, post_token, accept,
  decode_reply, expiry,
}
use claude_oauth_proxy.Auth.Provider.Renewal.{IsRenewedBy, access_token_renewed}
use claude_oauth_proxy.Auth.Examples.{service_with}

abbrev endpoint : ProviderConfig
endpoint = record {
  auth_url = "https://claude.ai/oauth/authorize";
  token_url = "https://platform.claude.com/v1/oauth/token";
  client_id = "id";
  scopes = "user:inference";
}

-- The endpoint grants a token that has expired, and no refresh token.
abbrev client : HttpClient Disk
client = record {
  refused = λ url. none;
  post = λ url document w. (
    ok (record {
      status_code = 200;
      body =
          read "{\"access_token\":\"at2\"}"
            (some (object (member "access_token" (string "at2") end)));
    }),
    w,
  );
}

abbrev clock : Disk → Time
clock w = new_year

abbrev service : Service Disk
service = service_with (some (claude_oauth_provider client endpoint clock))

abbrev given : AccessTokenOutput
given = record { token = "at2"; expires_at = new_year }

abbrev after : Disk
after = (access_token service true saved_disk).1

access_token_renewed_example :
    ((true ≡ false)
      × IsFresh service saved_disk session
      × ("at2" ≡ session.access_token)
      × (after ≡ saved_disk))
    ⊎ IsRenewedBy client endpoint clock service session saved_disk given after
unfolding file_store load save claude_oauth_provider refresh_token post_token accept decode_reply
    decode_struct decode_string expiry access_token get encode_token_set write_time remove put
    decode_token_set read_time is_blank refresh ◌+ℤ◌ mul64 wrap64 ◌*ℤ◌
access_token_renewed_example =
    access_token_renewed client endpoint clock service true saved_disk after session given refl refl
      refl
