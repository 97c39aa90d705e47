-- ===== src/Http/Laws/Ready.antt =====
-- internal/adapters/http/handler.go with internal/auth/service.go: what a ready proxy can do.
use mathlib.Core.Path.{refl}
use claude_oauth_proxy.Base.{◌≡◌, false, none, some, arith}
use claude_oauth_proxy.Core.{new_error, Result, ok, err, panic}
use claude_oauth_proxy.Tokens.{TokenSet, IoError, not_exist, invalid, other, expired}
use claude_oauth_proxy.Auth.{Service}
use claude_oauth_proxy.Auth.Operations.{status, status_of, access_token, token_output}
use claude_oauth_proxy.Auth.Operations.Laws.{access_token_cached}
use claude_oauth_proxy.Http.{Request, Exchange, Services, handle_ready, answer_ready, write_error}

module _ {S F C : Type 0} (sv : Services S F C) (s : Service S) where
  ready_from :
      (o : Result IoError TokenSet) (w : S) (x : Exchange S F)
      → x.status ≡ none
      → (answer_ready sv (status_of s o w) x).status ≡ some 200
      → (t : TokenSet) × (o ≡ ok t) × (expired (s.now w) s.cfg.refresh_skew t ≡ false)
  unfolding answer_ready write_error status_of new_error
  ready_from (ok t) w x fresh h = (t, refl, ground arith)
  ready_from (err not_exist) w x fresh h = absurd (ground arith)
  ready_from (err invalid) w x fresh h = absurd (ground arith)
  ready_from (err (other e)) w x fresh h = absurd (ground arith)
  ready_from panic w x fresh h = absurd (ground arith)

  -- Where the HTTP surface asks the auth service for its status: when the readiness probe answers
  -- 200, an access token can be had at once, it is the stored one, and nothing changes.
  pub handle_ready-access_token :
      (r : Request) (x : Exchange S F)
      → sv.status ≡ status s
      → x.status ≡ none
      → (handle_ready sv r x).status ≡ some 200
      → (t : TokenSet) × (s.store.load x.state ≡ ok t)
        × (access_token s false x.state ≡ (ok (token_output s t), x.state))
  unfolding handle_ready status
  handle_ready-access_token r x same fresh h =
      let (t, loaded, good) =
        ready_from (s.store.load x.state) x.state x fresh (rw (same, handle_ready, status) at h) in
      (t, loaded, access_token_cached s x.state t loaded good)
