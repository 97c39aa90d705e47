-- ===== src/Runtime/App/Access.antt =====
-- internal/runtime/service_factory.go with internal/adapters/http/handler.go: the handler of the program
-- that is built.
use claude_oauth_proxy.Base.{
  sym, ◌∙◌, Bool-cases, ℕ, String, ◌==◌, eq_iff, ◌≡◌, ap, subst, true, false, ◌&&◌, none, some,
  List, ◌⊎◌, inl, inr, arith, is_blank, if◌then◌else◌,
}
use claude_oauth_proxy.Core.{Result, ok}
use claude_oauth_proxy.Tokens.{Duration}
use claude_oauth_proxy.Runtime.Config.{Config, texts, first_blank}
use claude_oauth_proxy.Runtime.Config.Laws.{Visits, validate-IsValid}
use claude_oauth_proxy.Runtime.App.{App, new_app}
use claude_oauth_proxy.Runtime.App.Laws.{new_app_outcome}
use claude_oauth_proxy.Http.{Services, Request, Exchange, key_of, allows}
use claude_oauth_proxy.Http.Handler.{new_handler, origins_of}
use claude_oauth_proxy.Http.Laws.Access.{refusal, is_guarded, identified_state, serve_unauthorized}

present-api_key : (c : Config) → first_blank (texts c) ≡ none → is_blank c.api_key ≡ false
present-api_key c h = ground arith

blank_key : (key : String) → is_blank key ≡ false → ("" == key) ≡ false
unfolding is_blank
blank_key key h = elim (Bool-cases ("" == key)) [
  | inl e ↦ absurd (cc (subst (λ (k : String). is_blank k ≡ false) (sym ((eq_iff "" key).0 e)) h))
  | inr e ↦ e
]

key_in : Result String App → String
key_in (ok app) = app.api_key
key_in _ = ""

module _ (visit : List (String × String) → List (String × String)) (visits : Visits visit)
    (parse : String → String ⊎ Duration) (c : Config) (app : App)
    (built : new_app visit parse c ≡ ok app) where
  api_key-is_blank : is_blank app.api_key ≡ false
  unfolding key_in
  api_key-is_blank = elim (new_app_outcome visit visits parse c) [
    | inl (e, invalid, failed) ↦ absurd (cc)
    | inr (valid, a, b) ↦
        subst (λ (k : String). is_blank k ≡ false) (sym b.api_key ∙ ap key_in (sym b.given ∙ built))
          (present-api_key c (validate-IsValid parse visit visits c valid).present)
  ]

  -- The handler of a program that NewAppWithLogger has built answers a request that gives no key,
  -- for any path below /v1/ but the list of models, with 401, or with 301 where the path is not
  -- clean, or with 204 where it is the preflight request of an allowed origin, and reaches neither
  -- service: no valid configuration leaves the API open.
  pub new_app_guarded :
      {S F C : Type 0} (sv : Services S F C) (fuel : ℕ) (r : Request) (x : Exchange S F)
      → is_guarded r.path ≡ true
      → key_of r ≡ ""
      → x.status ≡ none
      → let y = new_handler sv fuel app.api_key app.cors_origins app.max_request_body r x in
        let allowed = allows (origins_of app.cors_origins) r && r.method == "OPTIONS" in
        (y.state ≡ identified_state sv r x) × (y.status ≡ some (if allowed then 204 else refusal r))
  unfolding new_handler
  new_app_guarded sv fuel r x g k fresh =
      let refused : (key_of r == app.api_key) ≡ false =
        rw k (blank_key app.api_key api_key-is_blank) in
      serve_unauthorized sv _ fuel r x g refused fresh
