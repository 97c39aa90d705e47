-- ===== src/Anthropic/Errors.antt =====
-- internal/provider/anthropic/service.go: `unauthorized` and `translateError`.
use claude_oauth_proxy.Base.{ℕ, String, Bool, false, some, nat_eq, if◌then◌else◌}
use claude_oauth_proxy.Core.{Error, new_error}

-- An error of the SDK: an API error with its status, or any other; with its text.
pub data SdkError : Type 0 where
  api : ℕ → String → SdkError
  transport : String → SdkError

unfoldable pub unauthorized : SdkError → Bool
unauthorized (api status text) = nat_eq status 401
unauthorized (transport text) = false

unfoldable pub translate_error : String → SdkError → Error
unfolding new_error
translate_error message (api status text) =
    let status' = if nat_eq status 0 then 502 else status in
    new_error (if nat_eq status' 401 then "UPSTREAM_UNAUTHORIZED" else "UPSTREAM_ERROR") status'
      message (some text)
translate_error message (transport text) = new_error "UPSTREAM_ERROR" 502 message (some text)
