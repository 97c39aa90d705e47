-- ===== src/Http/Handler.antt =====
-- internal/adapters/http/handler.go: `NewHandler`.
use claude_oauth_proxy.Base.{
  ℕ, ℤ, String, split_on, List, [], ◌∷◌, if◌then◌else◌, is_empty, is_blank, trim_space,
}
use claude_oauth_proxy.Http.Types.{HandlerFunc, Services}
use claude_oauth_proxy.Http.Middleware.{serve}

-- The loop over the origins.
abbrev pub keep_origins : List String → List String
keep_origins [] = []
keep_origins (o ∷ os) =
    let trimmed = trim_space o in
    if is_empty trimmed then keep_origins os else trimmed ∷ keep_origins os

unfoldable pub origins_of : String → List String
unfolding split_on
origins_of s = if is_blank s then [] else keep_origins (split_on b',' s)

unfoldable pub new_handler :
    {S F C : Type 0} → Services S F C → ℕ → String → String → ℤ → HandlerFunc S F
unfolding origins_of
new_handler sv fuel api_key cors_origins max_request_body =
    serve sv
      (record {
        api_key = api_key;
        cors_origins = origins_of cors_origins;
        max_request_body = max_request_body;
      })
      fuel
