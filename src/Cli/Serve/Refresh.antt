-- ===== src/Cli/Serve/Refresh.antt =====
-- internal/adapters/cli/run.go: the refresh loop keeps a session of the auth service fresh.
use claude_oauth_proxy.Cli.Serve.{auto_refresh}
use claude_oauth_proxy.Cli.Console.{Console, Command}
use claude_oauth_proxy.Auth.Interface.{auth_service}
use claude_oauth_proxy.Base.{
  ◌++◌, [], ◌∷◌, ℕ, String, List, All, true, ◌≡◌, inl, inr, refl, false, some, Bool-cases, is_blank,
  arith, ap, subst,
}
use claude_oauth_proxy.Core.{Result, ok}
use claude_oauth_proxy.Tokens.{TokenSet, missing, expired, StoreLaws, IoError}
use claude_oauth_proxy.Auth.{Service, OauthProvider, AccessTokenOutput}
use claude_oauth_proxy.Auth.Operations.{access_token, refresh, keep_refresh, token_output}
use claude_oauth_proxy.Auth.Operations.Laws.{IsFresh, access_token_cached}
use claude_oauth_proxy.Cli.Console.{Event, tick, meanwhile}

module _ {W : Type 0} (s : Service W) where
  -- A stored session that can be refreshed; and one that is fresh too.
  pub record HasSession (w : W) : Type 0 where
    pub tokens : TokenSet
    pub loaded : s.store.load w ≡ ok tokens
    pub refreshable : is_blank tokens.refresh_token ≡ false

  pub record HasFreshSession (w : W) : Type 0 where
    pub session : HasSession w
    pub fresh : IsFresh s w session.tokens

  -- How the provider and the disk renew a session: the provider answers with an access token, and
  -- what is then stored is saved, and is fresh.
  pub record IsRenewed (t : TokenSet) (w : W) : Type 0 where
    pub provider : OauthProvider W
    pub new : TokenSet
    pub between : W
    pub after : W
    pub present : s.provider ≡ some provider
    pub replied : provider.refresh_token t.refresh_token w ≡ (ok new, between)
    pub given : missing new ≡ false
    pub saved : s.store.save (keep_refresh s t new) between ≡ (ok tt, after)
    pub fresh : IsFresh s after (keep_refresh s t new)

  -- What happens between the ticks leaves a session that can be refreshed.
  abbrev pub Keeps : Event W → Type 0
  Keeps tick = Unit
  Keeps (meanwhile change) = (w : W) → HasSession w → HasSession (change w)

  module _ (laws : StoreLaws s.store)
      (renews : (t : TokenSet) (w : W)
        → s.store.load w ≡ ok t
        → is_blank t.refresh_token ≡ false
        → IsRenewed t w) where
    keep_refresh-is_blank :
        (t new : TokenSet)
        → is_blank t.refresh_token ≡ false
        → is_blank (keep_refresh s t new).refresh_token ≡ false
    keep_refresh-is_blank t new h = ground arith

    refreshed :
        (t : TokenSet) (w : W)
        → is_blank t.refresh_token ≡ false
        → (r : IsRenewed t w)
        → refresh s t w ≡ (ok (token_output s (keep_refresh s t r.new)), r.after)
    unfolding refresh
    refreshed t w h r = rw (r.present, r.replied, r.saved) refl

    renewed-HasFreshSession :
        (t : TokenSet) (w : W)
        → is_blank t.refresh_token ≡ false
        → (r : IsRenewed t w) → HasFreshSession r.after
    unfolding missing
    renewed-HasFreshSession t w h r = record {
      session = record {
        tokens = keep_refresh s t r.new;
        loaded =
            subst (λ (v : W). s.store.load v ≡ ok (keep_refresh s t r.new))
              (ap (λ (q : Result IoError (Unit {0}) × W). q.1) r.saved)
              (laws.load-save (keep_refresh s t r.new) r.between r.given
                (ap (λ (q : Result IoError (Unit {0}) × W). q.0) r.saved));
        refreshable = keep_refresh-is_blank t r.new h;
      };
      fresh = r.fresh;
    }

    -- One tick, where a refresh is due, and one anyway.
    due :
        (w : W) (h : HasSession w)
        → expired (s.now w) s.cfg.refresh_skew h.tokens ≡ true
        → IsRenewed h.tokens w
        → (out : AccessTokenOutput) × (after : W) × (access_token s false w ≡ (ok out, after))
          × HasFreshSession after
    unfolding access_token
    due w h e r = (
      token_output s (keep_refresh s h.tokens r.new),
      r.after,
      rw (access_token, h.loaded, e, h.refreshable) (refreshed h.tokens w h.refreshable r),
      renewed-HasFreshSession h.tokens w h.refreshable r,
    )

    ticked :
        (w : W)
        → HasSession w
        → (out : AccessTokenOutput) × (after : W) × (access_token s false w ≡ (ok out, after))
          × HasFreshSession after
    unfolding access_token
    ticked w h = elim (Bool-cases (expired (s.now w) s.cfg.refresh_skew h.tokens)) [
      | inr f ↦
          (_, w, access_token_cached s w h.tokens h.loaded f, record { session = h; fresh = f })
      | inl e ↦ due w h e (renews h.tokens w h.loaded h.refreshable)
    ]

    -- Over a lawful store, with a provider and a disk that renew every session that can be
    -- refreshed, and with nothing else that takes the session away: whatever has happened before,
    -- after a tick the refresh loop goes on with a fresh session in the store, and has logged and
    -- written nothing.
    pub auto_refresh_live :
        (sha256 : List ℕ → List ℕ) (bytes : String → List ℕ) (events : List (Event W))
        (next : Command W) (k : Console W)
        → All Keeps events
        → HasSession k.world
        → (w : W) × HasFreshSession w
          × (auto_refresh (auth_service sha256 bytes s) (events ++ tick ∷ []) next k
              ≡ next (record k { world = w }))
    unfolding auto_refresh auth_service
    auto_refresh_live sha256 bytes [] next k keeps h =
        let (out, w, e, fresh) = ticked k.world h in (w, fresh, rw e refl)
    auto_refresh_live sha256 bytes (tick ∷ events) next k (_, keeps) h =
        let (out, w, e, fresh) = ticked k.world h in
        let (v, last, f) =
          auto_refresh_live sha256 bytes events next (record k { world = w }) keeps fresh.session in
        (v, last, rw e f)
    auto_refresh_live sha256 bytes (meanwhile change ∷ events) next k (keep, keeps) h =
        auto_refresh_live sha256 bytes events next (record k { world = change k.world }) keeps
          (keep k.world h)
