-- ===== src/Auth/Operations/Laws.antt =====
-- internal/auth/service.go: what `AccessToken` guarantees.
use claude_oauth_proxy.Base.{
  Bool-cases, ◌≡◌, ◌⊎◌, inl, inr, refl, ap, Bool, true, false, some, none, String, is_blank, arith,
  Option,
}
use claude_oauth_proxy.Core.{Error, new_error, Result, ok, err, panic, proceed, pure}
use claude_oauth_proxy.Tokens.{TokenSet, expired, missing, StoreLaws, IoError, not_exist, other}
use claude_oauth_proxy.Auth.Types.{Service, OauthProvider, AccessTokenOutput, wrapped}
use claude_oauth_proxy.Auth.Operations.{
  ℕ, access_token, ask_refresh, save_refreshed, use_or_refresh, refresh, keep_refresh, token_output,
}

module _ {W : Type 0} (s : Service W) where
  -- What a token set loaded at `w` is good for.
  abbrev pub IsFresh : W → TokenSet → Type 0
  IsFresh w t = expired (s.now w) s.cfg.refresh_skew t ≡ false

  pub access_token_cached :
      (w : W) (t : TokenSet)
      → s.store.load w ≡ ok t
      → IsFresh w t
      → access_token s false w ≡ (ok (token_output s t), w)
  unfolding access_token
  access_token_cached w t l f = rw (l, access_token) (ground arith)

  -- What is saved of a reply: the reply itself, but with the old refresh token where its own is blank.
  pub record IsRenewal (old new kept : TokenSet) : Type 0 where
    pub same : kept ≡ record new { refresh_token = kept.refresh_token }
    pub renewed : is_blank new.refresh_token ≡ false → kept.refresh_token ≡ new.refresh_token
    pub retained : is_blank new.refresh_token ≡ true → kept.refresh_token ≡ old.refresh_token

  keep_refresh-IsRenewal : (old new : TokenSet) → IsRenewal old new (keep_refresh s old new)
  keep_refresh-IsRenewal old new = record {
    same = refl;
    renewed = λ h. ground arith;
    retained = λ h. ground arith;
  }

  -- How a refresh ends well: the provider was asked, and what it gave was saved.
  pub record IsRefreshed (t : TokenSet) (w : W) (out : AccessTokenOutput) (w' : W) : Type 0 where
    pub provider : OauthProvider W
    pub new : TokenSet
    pub kept : TokenSet
    pub between : W
    pub present : s.provider ≡ some provider
    pub replied : provider.refresh_token t.refresh_token w ≡ (ok new, between)
    pub renewal : IsRenewal t new kept
    pub saved : s.store.save kept between ≡ (ok tt, w')
    pub given : out ≡ record { token = kept.access_token; expires_at = kept.expires_at }

  saved-eq-ok :
      {out x : AccessTokenOutput} {w' : W} (code message : String)
      (r : Result IoError (Unit {0}) × W)
      → proceed (wrapped code message r) (λ _. pure {E = Error} x) ≡ (ok out, w')
      → (r ≡ (ok tt, w')) × (out ≡ x)
  saved-eq-ok code message (ok u, w) h = (ground arith, ground arith)
  saved-eq-ok code message (err e, w) h = cc
  saved-eq-ok code message (panic, w) h = cc

  replied-eq-ok :
      {out : AccessTokenOutput} {w' : W} (t : TokenSet) (r : Result Error TokenSet × W)
      → proceed r (save_refreshed s t) ≡ (ok out, w')
      → (new : TokenSet) × (between : W) × (r ≡ (ok new, between))
        × (s.store.save (keep_refresh s t new) between ≡ (ok tt, w'))
        × (out ≡ token_output s (keep_refresh s t new))
  unfolding refresh
  replied-eq-ok t (ok new, w) h =
      let (saved, given) = saved-eq-ok "TOKEN_SAVE_FAILED" "save refreshed tokens" _ h in
      (new, w, refl, saved, given)
  replied-eq-ok t (err e, w) h = cc
  replied-eq-ok t (panic, w) h = cc

  provided-eq-ok :
      (t : TokenSet) (w w' : W) (out : AccessTokenOutput) (o : Option (OauthProvider W))
      → s.provider ≡ o
      → proceed (ask_refresh s t o w) (save_refreshed s t) ≡ (ok out, w')
      → IsRefreshed t w out w'
  unfolding refresh
  provided-eq-ok t w w' out none e h = cc
  provided-eq-ok t w w' out (some p) e h =
      let (new, between, replied, saved, given) =
        replied-eq-ok t (p.refresh_token t.refresh_token w) h in
      record {
        provider = p;
        new = new;
        kept = keep_refresh s t new;
        between = between;
        present = e;
        replied = replied;
        renewal = keep_refresh-IsRenewal t new;
        saved = saved;
        given = given;
      }

  refresh-IsRefreshed :
      (t : TokenSet) (w w' : W) (out : AccessTokenOutput)
      → refresh s t w ≡ (ok out, w')
      → IsRefreshed t w out w'
  unfolding refresh
  refresh-IsRefreshed t w w' out h = provided-eq-ok t w w' out s.provider refl h

  use_or_refresh-eq-ok :
      (force : Bool) (w w' : W) (t : TokenSet) (out : AccessTokenOutput)
      → use_or_refresh s force (ok t) w ≡ (ok out, w')
      → ((force ≡ false) × IsFresh w t × (out ≡ token_output s t) × (w' ≡ w))
        ⊎ ((is_blank t.refresh_token ≡ false) × (refresh s t w ≡ (ok out, w')))
  unfolding access_token
  use_or_refresh-eq-ok force w w' t out h = ground arith

  renewal-missing :
      {old new kept : TokenSet}
      → IsRenewal old new kept
      → missing new ≡ false
      → missing kept ≡ false
  unfolding missing
  renewal-missing {new = new} r h = rw (ap (λ (q : TokenSet). q.access_token) r.same) h

  renewal-is_blank :
      {old new kept : TokenSet}
      → IsRenewal old new kept
      → is_blank old.refresh_token ≡ false
      → is_blank kept.refresh_token ≡ false
  renewal-is_blank {new = new} r h = elim (Bool-cases (is_blank new.refresh_token)) [
    | inl blank ↦ rw (r.retained blank) h
    | inr given ↦ rw (r.renewed given) given
  ]

  -- Where the store loads a token set, a successful AccessToken either returns the stored token,
  -- which is fresh, and changes nothing, or asks the provider with the stored refresh token, which
  -- is not blank, and saves what that gave, with the old refresh token kept where the reply has
  -- none.
  pub access_token_outcome :
      (force : Bool) (w w' : W) (t : TokenSet) (out : AccessTokenOutput)
      → s.store.load w ≡ ok t
      → access_token s force w ≡ (ok out, w')
      → ((force ≡ false) × IsFresh w t × (out ≡ token_output s t) × (w' ≡ w))
        ⊎ ((is_blank t.refresh_token ≡ false) × IsRefreshed t w out w')
  unfolding access_token
  access_token_outcome force w w' t out l h =
      elim (use_or_refresh-eq-ok force w w' t out (rw l at h)) [
        | inl kept ↦ inl kept
        | inr (present, asked) ↦ inr (present, refresh-IsRefreshed t w w' out asked)
      ]

  -- Over a lawful store, and a provider whose replies have access tokens: whatever a successful
  -- AccessToken returns is the token that the store now loads, and what the store holds is either
  -- unchanged or has a usable refresh token.
  pub access_token_persisted :
      (force : Bool) (w w' : W) (t : TokenSet) (out : AccessTokenOutput)
      → StoreLaws s.store
      → ((p : OauthProvider W) (v : W) (new : TokenSet)
          → s.provider ≡ some p
          → (p.refresh_token t.refresh_token v).0 ≡ ok new
          → missing new ≡ false)
      → s.store.load w ≡ ok t
      → access_token s force w ≡ (ok out, w')
      → (kept : TokenSet) × (s.store.load w' ≡ ok kept)
        × (out ≡ token_output s kept)
        × ((kept ≡ t) ⊎ (is_blank kept.refresh_token ≡ false))
  unfolding missing
  access_token_persisted force w w' t out laws replies l h =
      elim (access_token_outcome force w w' t out l h) [
        | inl (_, _, given, same) ↦ (t, rw same l, given, inl refl)
        | inr (present, r) ↦ (
          r.kept,
          rw (← ap (λ (q : Result IoError (Unit {0}) × W). q.1) r.saved) (
              laws.load-save r.kept r.between
                (renewal-missing r.renewal (
                  replies r.provider w r.new r.present
                    (ap (λ (q : Result Error TokenSet × W). q.0) r.replied)))
                (ap (λ (q : Result IoError (Unit {0}) × W). q.0) r.saved)),
          r.given,
          inr (renewal-is_blank r.renewal present),
        )
      ]

  -- Over a lawful store, and a provider whose replies have access tokens: after a successful
  -- AccessToken that left a fresh token set in the store, the next call, if it is not made to
  -- refresh, returns the same token and changes nothing.
  pub access_token_once :
      (force : Bool) (w w' : W) (t : TokenSet) (out : AccessTokenOutput)
      → StoreLaws s.store
      → ((p : OauthProvider W) (v : W) (new : TokenSet)
          → s.provider ≡ some p
          → (p.refresh_token t.refresh_token v).0 ≡ ok new
          → missing new ≡ false)
      → ((kept : TokenSet) → s.store.load w' ≡ ok kept → IsFresh w' kept)
      → s.store.load w ≡ ok t
      → access_token s force w ≡ (ok out, w')
      → access_token s false w' ≡ (ok out, w')
  access_token_once force w w' t out laws replies fresh l h =
      let (kept, loaded, given, _) = access_token_persisted force w w' t out laws replies l h in
      rw given (access_token_cached w' kept loaded (fresh kept loaded))

  -- Why a call is refused, with the error's code and status: there is no session, it cannot be
  -- read, or a refresh is due and there is no refresh token.
  pub data Refusal (force : Bool) (w : W) : String → ℕ → Type 0 where
    no_session : s.store.load w ≡ err not_exist → Refusal force w "TOKEN_MISSING" 503
    unreadable :
        (text : String)
        → s.store.load w ≡ err (other text)
        → Refusal force w "TOKEN_LOAD_FAILED" 500
    stale :
        (t : TokenSet)
        → s.store.load w ≡ ok t
        → (force ≡ true) ⊎ (expired (s.now w) s.cfg.refresh_skew t ≡ true)
        → is_blank t.refresh_token ≡ true
        → Refusal force w "REFRESH_TOKEN_MISSING" 503

  -- Without a stored session, with one that cannot be read, or with one that has to be refreshed
  -- and has no refresh token, AccessToken is refused with its own code and status, and changes
  -- nothing.
  pub access_token_refused :
      (force : Bool) (w : W) (code : String) (status_code : ℕ)
      → Refusal force w code status_code
      → (e : Error) × (access_token s force w ≡ (err e, w))
        × (e.code ≡ code)
        × (e.status_code ≡ status_code)
  unfolding access_token new_error
  access_token_refused force w _ _ (no_session l) = rw l (_, refl, refl, refl)
  access_token_refused force w _ _ (unreadable text l) = rw l (_, refl, refl, refl)
  access_token_refused force w _ _ (stale t l due b) = rw l (
    new_error "REFRESH_TOKEN_MISSING" 503 "refresh token is missing" none,
    ground arith,
    refl,
    refl,
  )
