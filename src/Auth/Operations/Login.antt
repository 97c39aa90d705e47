-- ===== src/Auth/Operations/Login.antt =====
-- internal/auth/service.go: completing a login, logging out, and what the status says of the token.
use claude_oauth_proxy.Base.{
  if◌then◌else◌, inr, inl, Bool-cases, ◌≡◌, refl, ap, true, false, some, none, is_blank, trim_space,
  arith, Option,
}
use claude_oauth_proxy.Core.{Error, new_error, Result, ok, err, panic, proceed, pure}
use claude_oauth_proxy.Tokens.{TokenSet, IoError, not_exist, invalid, other}
use claude_oauth_proxy.Auth.Types.{
  Service, OauthProvider, CompleteLoginInput, CompleteLoginOutput, ExchangeCodeInput, StatusOutput,
  wrapped,
}
use claude_oauth_proxy.Auth.Operations.{
  save_login, call_provider, access_token, status, complete_login, status_of, token_output,
}

module _ {W : Type 0} (s : Service W) where
  status_of-err :
      (x : IoError) (w : W) (out : StatusOutput)
      → status_of s (err x) w ≡ (ok out, w)
      → out.exists ≡ true
      → ⊥
  unfolding status
  status_of-err not_exist w out h e = ground arith
  status_of-err invalid w out h e = cc
  status_of-err (other text) w out h e = cc

  -- When Status says that the session exists and is not expired, AccessToken returns the stored
  -- token at once, without a change, and it expires when Status says.
  pub status-access_token :
      (w : W) (out : StatusOutput)
      → status s w ≡ (ok out, w)
      → out.exists ≡ true
      → out.is_expired ≡ false
      → (t : TokenSet) × (s.store.load w ≡ ok t)
        × (out.expires_at ≡ t.expires_at)
        × (access_token s false w ≡ (ok (token_output s t), w))
  unfolding status access_token
  status-access_token w out h e f = go (s.store.load w) refl
    where
      go :
          (r : Result IoError TokenSet)
          → s.store.load w ≡ r
          → (t : TokenSet) × (s.store.load w ≡ ok t)
            × (out.expires_at ≡ t.expires_at)
            × (access_token s false w ≡ (ok (token_output s t), w))
      go (ok t) l = (t, l, ground arith, rw l (ground arith))
      go (err x) l = absurd (status_of-err x w out (rw (l, status) at h) e)
      go panic l = absurd (cc (rw (l, status) at h))

  -- What is asked of the provider: the code without the space around it, and the configured address
  -- where the input has none.
  abbrev pub exchange_input : CompleteLoginInput → ExchangeCodeInput
  exchange_input input = record {
    auth_code = trim_space input.auth_code;
    state = input.state;
    code_verifier = input.code_verifier;
    redirect_uri = if is_blank input.redirect_uri then s.cfg.redirect_uri else input.redirect_uri;
  }

  pub record IsCompleted (input : CompleteLoginInput) (w : W) (out : CompleteLoginOutput) (w' : W)
      : Type 0 where
    pub provider : OauthProvider W
    pub tokens : TokenSet
    pub between : W
    pub given : is_blank input.auth_code ≡ false
    pub present : s.provider ≡ some provider
    pub exchanged : provider.exchange_code (exchange_input input) w ≡ (ok tokens, between)
    pub saved : s.store.save tokens between ≡ (ok tt, w')
    pub expiry : out.expires_at ≡ tokens.expires_at

  saved-eq-ok :
      {out x : CompleteLoginOutput} {w' : W} (r : Result IoError (Unit {0}) × W)
      → proceed (wrapped "TOKEN_SAVE_FAILED" "save tokens" r) (λ _. pure {E = Error} x)
        ≡ (ok out, w')
      → (r ≡ (ok tt, w')) × (out ≡ x)
  saved-eq-ok (ok u, w) h = (ground arith, ground arith)
  saved-eq-ok (err e, w) h = cc
  saved-eq-ok (panic, w) h = cc

  exchanged-eq-ok :
      (r : Result Error TokenSet × W) {out : CompleteLoginOutput} {w' : W}
      → proceed r (save_login s) ≡ (ok out, w')
      → (t : TokenSet) × (between : W) × (r ≡ (ok t, between))
        × (s.store.save t between ≡ (ok tt, w'))
        × (out.expires_at ≡ t.expires_at)
  unfolding complete_login
  exchanged-eq-ok (ok t, v) h =
      let (saved, given) = saved-eq-ok _ h in
      (t, v, refl, saved, ap (λ (o : CompleteLoginOutput). o.expires_at) given)
  exchanged-eq-ok (err e, v) h = cc
  exchanged-eq-ok (panic, v) h = cc

  provided-eq-ok :
      (input : CompleteLoginInput) (w w' : W) (out : CompleteLoginOutput)
      (o : Option (OauthProvider W))
      → is_blank input.auth_code ≡ false
      → s.provider ≡ o
      → proceed (call_provider s (λ p. p.exchange_code (exchange_input input)) o w) (save_login s)
        ≡ (ok out, w')
      → IsCompleted input w out w'
  provided-eq-ok input w w' out none b e h = cc
  provided-eq-ok input w w' out (some p) b e h =
      let (t, between, exchanged, saved, same) =
        exchanged-eq-ok (p.exchange_code (exchange_input input) w) h in
      record {
        provider = p;
        tokens = t;
        between = between;
        given = b;
        present = e;
        exchanged = exchanged;
        saved = saved;
        expiry = same;
      }

  -- CompleteLogin succeeds only with a code that is not blank, for which the provider, asked with
  -- the trimmed code and the configured redirect address where the input has none, gave tokens that
  -- were saved; it reports when they expire.
  pub complete_login_outcome :
      (input : CompleteLoginInput) (w w' : W) (out : CompleteLoginOutput)
      → complete_login s input w ≡ (ok out, w')
      → IsCompleted input w out w'
  unfolding complete_login
  complete_login_outcome input w w' out h = elim (Bool-cases (is_blank input.auth_code)) [
    | inl blank ↦ absurd (ground arith)
    | inr given ↦ provided-eq-ok input w w' out s.provider given refl (rw given at h)
  ]

  -- A blank code is refused before the provider or the store is used.
  pub complete_login_blank :
      (input : CompleteLoginInput) (w : W)
      → is_blank input.auth_code ≡ true
      → (e : Error) × (complete_login s input w ≡ (err e, w))
        × (e.code ≡ "CODE_REQUIRED")
        × (e.status_code ≡ 400)
  unfolding complete_login new_error
  complete_login_blank input w b = rw b (_, refl, refl, refl)
