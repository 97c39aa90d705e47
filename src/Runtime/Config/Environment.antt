-- ===== src/Runtime/Config/Environment.antt =====
-- internal/runtime/config.go: what `configFromEnv` can lead to.
use claude_oauth_proxy.Base.{
  ◌⧺◌, ℤ, String, ◌≡◌, refl, false, none, List, ◌⊎◌, inl, inr, is_blank, is_empty, trim_space,
  trim_space_idem, Bool-cases,
}
use claude_oauth_proxy.Core.{ok}
use claude_oauth_proxy.Tokens.{Duration}
use claude_oauth_proxy.Runtime.ByteSize.{parse_byte_size}
use claude_oauth_proxy.Runtime.Config.{
  validate, texts, first_blank, apply, config_from_env, default_config,
}
use claude_oauth_proxy.Runtime.Config.Laws.{Visits, IsValid-validate}

apply-is_blank :
    (value target : String) → is_blank target ≡ false → is_blank (apply value target) ≡ false
unfolding apply is_blank
apply-is_blank value target h = elim (Bool-cases (is_empty (trim_space value))) [
  | inl e ↦ rw e h
  | inr e ↦ rw (e, trim_space_idem value) e
]

module _ (getenv : String → String) (token_file : String)
    (located : is_blank token_file ≡ false) where
  -- The texts that `Validate` asks for are there, whatever the environment says.
  config_from_env-first_blank : first_blank (texts (config_from_env getenv token_file)) ≡ none
  unfolding config_from_env default_config is_blank
  config_from_env-first_blank =
      rw
        (
          kept "LISTEN_ADDR" ":9999" refl,
          kept "API_KEY" "sk-proxy-local-key" refl,
          kept "TOKEN_FILE" token_file located,
          kept "ANTHROPIC_BASE_URL" "https://api.anthropic.com" refl,
          kept "OAUTH_AUTH_URL" "https://claude.ai/oauth/authorize" refl,
          kept "OAUTH_TOKEN_URL" "https://platform.claude.com/v1/oauth/token" refl,
          kept "OAUTH_CLIENT_ID" "9d1c250a-e61b-44d9-88ed-5944d1962f5e" refl,
          kept "OAUTH_SCOPES"
              "org:create_api_key user:profile user:inference user:sessions:claude_code user:mcp_servers user:file_upload"
              refl,
          kept "OAUTH_REDIRECT_URI" "https://platform.claude.com/oauth/code/callback" refl,
          kept "ANTHROPIC_BETA" "oauth-2025-04-20,prompt-caching-2024-07-31" refl,
        )
        refl
    where
      kept :
          (key target : String)
          → is_blank target ≡ false
          → is_blank (apply (getenv ("CLAUDE_OAUTH_PROXY_" ⧺ key)) target) ≡ false
      kept key target h = apply-is_blank (getenv ("CLAUDE_OAUTH_PROXY_" ⧺ key)) target h

  -- Whatever the environment says, a configuration read from it, with a default token file that is
  -- not blank, passes Validate as soon as its three durations and its size limit can be parsed.
  pub config_from_env_valid :
      (visit : List (String × String) → List (String × String)) (parse : String → String ⊎ Duration)
      (timeout interval skew : Duration) (size : ℤ)
      → Visits visit
      → parse (config_from_env getenv token_file).request_timeout ≡ inr timeout
      → parse (config_from_env getenv token_file).refresh_interval ≡ inr interval
      → parse (config_from_env getenv token_file).refresh_skew ≡ inr skew
      → parse_byte_size (config_from_env getenv token_file).max_request_body ≡ ok size
      → validate visit parse (config_from_env getenv token_file) ≡ none
  config_from_env_valid visit parse timeout interval skew size visits a b c d =
      IsValid-validate parse visit visits _ (record {
        present = config_from_env-first_blank;
        timeout = (timeout, a);
        interval = (interval, b);
        skew = (skew, c);
        size = (size, d);
      })
