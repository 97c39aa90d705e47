-- ===== src/Runtime/App.antt =====
-- internal/runtime/service_factory.go: what `NewAppWithLogger` builds the program of.
pub mod Laws
pub mod Access
use claude_oauth_proxy.Base.{
  String, Bool, ℤ, Option, none, some, List, ◌⊎◌, inl, inr, is_empty, is_blank, ◌⧺◌, if◌then◌else◌,
}
use claude_oauth_proxy.Core.{Result, ok, err, panic}
use claude_oauth_proxy.Tokens.{TimeFormat, Duration, Store, Time}
use claude_oauth_proxy.Tokens.FileStore.{Disk, Faults, file_store}
use claude_oauth_proxy.Tokens.Fallback.{fallback_store}
use claude_oauth_proxy.Runtime.ByteSize.{parse_byte_size}
use claude_oauth_proxy.Runtime.Config.{Config, validate}
use claude_oauth_proxy.Auth
use claude_oauth_proxy.Auth.Provider.{ProviderConfig}
use claude_oauth_proxy.Anthropic

-- The arguments of the constructors that `NewAppWithLogger` calls. The pricing source is there where
-- costs are tracked.
pub record App : Type 0 where
  pub config : Config
  pub token_file : String
  pub seed_file : Option String
  pub auth_config : Auth.Config
  pub oauth_config : ProviderConfig
  pub anthropic_config : Anthropic.Config
  pub pricing_url : Option String
  pub api_key : String
  pub cors_origins : String
  pub max_request_body : ℤ
  pub refresh_interval : Duration

abbrev pub build : Config → Duration → Duration → Duration → ℤ → App
build c refresh_skew refresh_interval request_timeout max_request_body = record {
  config = c;
  token_file = c.token_file;
  seed_file = if is_empty c.seed_file then none else some c.seed_file;
  auth_config = record { redirect_uri = c.oauth_redirect; refresh_skew = refresh_skew };
  oauth_config = record {
    auth_url = c.oauth_auth_url;
    token_url = c.oauth_token_url;
    client_id = c.oauth_client_id;
    scopes = c.oauth_scopes;
  };
  anthropic_config = record {
    base_url = c.anthropic_base;
    beta_header = c.anthropic_beta;
    billing_header = c.billing_header;
    cc_version = c.cc_version;
    user_agent = c.cc_user_agent;
    sdk_version = c.cc_sdk_version;
    runtime_version = c.cc_runtime_ver;
    stainless_os = c.cc_os;
    stainless_arch = c.cc_arch;
    request_timeout = request_timeout;
  };
  pricing_url = if c.cost_tracking then some c.openrouter_url else none;
  api_key = c.api_key;
  cors_origins = c.cors_origins;
  max_request_body = max_request_body;
  refresh_interval = refresh_interval;
}

-- The store of the session: the token file, with the seed file behind it where there is one.
unfoldable pub token_store : TimeFormat → Faults → App → Store Disk
token_store tf faults app = elim app.seed_file [
  | none ↦ file_store tf faults (some app.token_file)
  | some seed ↦
      fallback_store (file_store tf faults (some app.token_file)) (file_store tf faults (some seed))
]

-- `if err != nil { return App{}, fmt.Errorf(label, err) }`, or else the rest.
abbrev pub parsed : String → String ⊎ Duration → (Duration → Result String App) → Result String App
parsed label (inl e) rest = err (label ⧺ ": " ⧺ e)
parsed label (inr d) rest = rest d

abbrev pub sized_by : Result String ℤ → (ℤ → Result String App) → Result String App
sized_by (err e) rest = err ("max request body: " ⧺ e)
sized_by panic rest = panic
sized_by (ok n) rest = rest n

-- What follows `Validate`.
abbrev pub started : (String → String ⊎ Duration) → Config → Option String → Result String App
started parse c (some e) = err e
started parse c none = parsed "refresh skew" (parse c.refresh_skew) λ skew.
    parsed "refresh interval" (parse c.refresh_interval) λ interval.
      parsed "request timeout" (parse c.request_timeout) λ timeout.
        sized_by (parse_byte_size c.max_request_body)
          λ size. ok (build c skew interval timeout size)

unfoldable pub new_app :
    (List (String × String) → List (String × String))
    → (String → String ⊎ Duration)
    → Config
    → Result String App
new_app visit parse c = started parse c (validate visit parse c)
