-- ===== src/Runtime/Config.antt =====
-- internal/runtime/config.go: `Config`, its defaults, what the environment sets, and `Validate`.
pub mod Laws
pub mod Environment
use claude_oauth_proxy.Base.{
  inr, inl, ◌⊎◌, String, ◌⧺◌, ◌==◌, Bool, true, false, ◌||◌, Option, none, some, List, [], ◌∷◌,
  if◌then◌else◌, is_empty, is_blank, trim_space,
}
use claude_oauth_proxy.Core.{Result, ok, err, panic}
use claude_oauth_proxy.Tokens.{Duration}
use claude_oauth_proxy.Runtime.ByteSize.{parse_byte_size}

pub record Config : Type 0 where
  pub listen_addr : String
  pub api_key : String
  pub token_file : String
  pub anthropic_base : String
  pub oauth_auth_url : String
  pub oauth_token_url : String
  pub oauth_client_id : String
  pub oauth_scopes : String
  pub oauth_redirect : String
  pub anthropic_beta : String
  pub billing_header : String
  pub request_timeout : String
  pub refresh_interval : String
  pub refresh_skew : String
  pub seed_file : String
  pub cors_origins : String
  pub max_request_body : String
  pub cc_version : String
  pub cc_user_agent : String
  pub cc_sdk_version : String
  pub cc_runtime_ver : String
  pub cc_os : String
  pub cc_arch : String
  pub cost_tracking : Bool
  pub openrouter_url : String
  pub no_auto_login : Bool

-- `userHomeDir` gives the home directory or an error; `clean` is filepath.Clean.
unfoldable pub default_token_file : (String → String) → Option String → String
default_token_file clean none = ".config/claude-oauth-proxy/tokens.json"
default_token_file clean (some home) =
    if is_blank home
    then ".config/claude-oauth-proxy/tokens.json"
    else clean (home ⧺ "/.config/claude-oauth-proxy/tokens.json")

-- `DefaultConfig`, with the default token file.
unfoldable pub default_config : String → Config
default_config token_file = record {
  listen_addr = ":9999";
  api_key = "sk-proxy-local-key";
  token_file = token_file;
  anthropic_base = "https://api.anthropic.com";
  oauth_auth_url = "https://claude.ai/oauth/authorize";
  oauth_token_url = "https://platform.claude.com/v1/oauth/token";
  oauth_client_id = "9d1c250a-e61b-44d9-88ed-5944d1962f5e";
  oauth_scopes =
      "org:create_api_key user:profile user:inference user:sessions:claude_code user:mcp_servers user:file_upload";
  oauth_redirect = "https://platform.claude.com/oauth/code/callback";
  anthropic_beta = "oauth-2025-04-20,prompt-caching-2024-07-31";
  billing_header = "x-anthropic-billing-header: cc_version=%s; cc_entrypoint=cli; cch=00000;";
  request_timeout = "10m";
  refresh_interval = "1m";
  refresh_skew = "5m";
  seed_file = "";
  cors_origins = "";
  max_request_body = "10MB";
  cc_version = "2.1.107";
  cc_user_agent = "claude-cli/2.1.107 (external, cli)";
  cc_sdk_version = "0.74.0";
  cc_runtime_ver = "v25.8.1";
  cc_os = "Linux";
  cc_arch = "x64";
  cost_tracking = false;
  openrouter_url = "";
  no_auto_login = false;
}

-- `apply`: a value that is not blank takes the target's place, without the space around it.
unfoldable pub apply : String → String → String
apply value target = let trimmed = trim_space value in if is_empty trimmed then target else trimmed

abbrev pub says_yes : String → Bool
says_yes v = v == "true" || v == "1" || v == "yes"

unfoldable pub flag_of : String → Bool → Bool
flag_of value target =
    let trimmed = trim_space value in if is_empty trimmed then target else says_yes trimmed

-- `configFromEnv`
unfoldable pub config_from_env : (String → String) → String → Config
unfolding default_config apply flag_of
config_from_env getenv token_file =
    let cfg = default_config token_file in
    record cfg {
      listen_addr = apply (getenv "CLAUDE_OAUTH_PROXY_LISTEN_ADDR") cfg.listen_addr;
      api_key = apply (getenv "CLAUDE_OAUTH_PROXY_API_KEY") cfg.api_key;
      token_file = apply (getenv "CLAUDE_OAUTH_PROXY_TOKEN_FILE") cfg.token_file;
      anthropic_base = apply (getenv "CLAUDE_OAUTH_PROXY_ANTHROPIC_BASE_URL") cfg.anthropic_base;
      oauth_auth_url = apply (getenv "CLAUDE_OAUTH_PROXY_OAUTH_AUTH_URL") cfg.oauth_auth_url;
      oauth_token_url = apply (getenv "CLAUDE_OAUTH_PROXY_OAUTH_TOKEN_URL") cfg.oauth_token_url;
      oauth_client_id = apply (getenv "CLAUDE_OAUTH_PROXY_OAUTH_CLIENT_ID") cfg.oauth_client_id;
      oauth_scopes = apply (getenv "CLAUDE_OAUTH_PROXY_OAUTH_SCOPES") cfg.oauth_scopes;
      oauth_redirect = apply (getenv "CLAUDE_OAUTH_PROXY_OAUTH_REDIRECT_URI") cfg.oauth_redirect;
      anthropic_beta = apply (getenv "CLAUDE_OAUTH_PROXY_ANTHROPIC_BETA") cfg.anthropic_beta;
      request_timeout = apply (getenv "CLAUDE_OAUTH_PROXY_REQUEST_TIMEOUT") cfg.request_timeout;
      refresh_interval = apply (getenv "CLAUDE_OAUTH_PROXY_REFRESH_INTERVAL") cfg.refresh_interval;
      refresh_skew = apply (getenv "CLAUDE_OAUTH_PROXY_REFRESH_SKEW") cfg.refresh_skew;
      seed_file = apply (getenv "CLAUDE_OAUTH_PROXY_SEED_FILE") cfg.seed_file;
      cors_origins = apply (getenv "CLAUDE_OAUTH_PROXY_CORS_ORIGINS") cfg.cors_origins;
      max_request_body = apply (getenv "CLAUDE_OAUTH_PROXY_MAX_REQUEST_BODY") cfg.max_request_body;
      cc_version = apply (getenv "CLAUDE_OAUTH_PROXY_CC_VERSION") cfg.cc_version;
      cc_user_agent = apply (getenv "CLAUDE_OAUTH_PROXY_CC_USER_AGENT") cfg.cc_user_agent;
      cc_sdk_version = apply (getenv "CLAUDE_OAUTH_PROXY_CC_SDK_VERSION") cfg.cc_sdk_version;
      cc_runtime_ver = apply (getenv "CLAUDE_OAUTH_PROXY_CC_RUNTIME_VERSION") cfg.cc_runtime_ver;
      cc_os = apply (getenv "CLAUDE_OAUTH_PROXY_CC_OS") cfg.cc_os;
      cc_arch = apply (getenv "CLAUDE_OAUTH_PROXY_CC_ARCH") cfg.cc_arch;
      openrouter_url = apply (getenv "CLAUDE_OAUTH_PROXY_OPENROUTER_URL") cfg.openrouter_url;
      cost_tracking = flag_of (getenv "CLAUDE_OAUTH_PROXY_COST_TRACKING") cfg.cost_tracking;
      no_auto_login = flag_of (getenv "CLAUDE_OAUTH_PROXY_NO_AUTO_LOGIN") cfg.no_auto_login;
    }

-- The two maps of `Validate`.
abbrev pub texts : Config → List (String × String)
texts c =
    ("listen address", c.listen_addr)
    ∷ ("api key", c.api_key)
    ∷ ("token file", c.token_file)
    ∷ ("anthropic base url", c.anthropic_base)
    ∷ ("oauth auth url", c.oauth_auth_url)
    ∷ ("oauth token url", c.oauth_token_url)
    ∷ ("oauth client id", c.oauth_client_id)
    ∷ ("oauth scopes", c.oauth_scopes)
    ∷ ("oauth redirect uri", c.oauth_redirect)
    ∷ ("anthropic beta header", c.anthropic_beta)
    ∷ []

abbrev pub durations : Config → List (String × String)
durations c =
    ("request timeout", c.request_timeout)
    ∷ ("refresh interval", c.refresh_interval)
    ∷ ("refresh skew", c.refresh_skew)
    ∷ []

-- The first loop.
abbrev pub first_blank : List (String × String) → Option String
first_blank [] = none
first_blank ((label, value) ∷ rest) =
    if is_blank value then some (label ⧺ " must not be empty") else first_blank rest

abbrev pub labelled : String → Option String → Option String → Option String
labelled label (some e) rest = some (label ⧺ ": " ⧺ e)
labelled label none rest = rest

abbrev pub error_of : {A : Type 0} → Result String A → Option String
error_of (err e) = some e
error_of _ = none

-- time.ParseDuration gives an error or a duration.
abbrev pub duration_error : String ⊎ Duration → Option String
duration_error (inl e) = some e
duration_error (inr d) = none

-- The second loop.
abbrev pub first_bad : (String → String ⊎ Duration) → List (String × String) → Option String
first_bad parse [] = none
first_bad parse ((label, value) ∷ rest) =
    labelled label (duration_error (parse value)) (first_bad parse rest)

-- One after the other, until there is an error.
abbrev pub or_else : Option String → Option String → Option String
or_else (some e) next = some e
or_else none next = next

-- `Validate`, with its error if there is one. `visit` is the order in which a loop meets the entries of
-- a map, and `parse` is time.ParseDuration.
unfoldable pub validate :
    (List (String × String) → List (String × String))
    → (String → String ⊎ Duration)
    → Config
    → Option String
validate visit parse c = or_else (first_blank (visit (texts c))) (
    or_else (first_bad parse (visit (durations c)))
      (labelled "max request body" (error_of (parse_byte_size c.max_request_body)) none))
