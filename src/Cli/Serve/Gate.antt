-- ===== src/Cli/Serve/Gate.antt =====
-- internal/adapters/cli/run.go: when `serve` comes to listen.
use claude_oauth_proxy.Base.{
  if_false, if_true, sym, subst, ap, ℕ, suc, zero, ◌≡◌, ◌⊎◌, inl, inr, refl, String, List, ◌++◌,
  Bool, true, false, not, Bool-cases,
}
use claude_oauth_proxy.Core.{Error, Result, ok, err, panic}
use claude_oauth_proxy.Auth.{StatusOutput, AccessTokenOutput}
use claude_oauth_proxy.Auth.Interface.{AuthService}
use claude_oauth_proxy.Runtime.Config.{Config}
use claude_oauth_proxy.Cli.Flags.{Flag, switch_of, word_of}
use claude_oauth_proxy.Cli.Console.{
  Console, Exit, exited, crashed, Command, Outside, Application, resume, give_up,
}
use claude_oauth_proxy.Cli.Commands.{execute_login_flow}
use claude_oauth_proxy.Cli.Commands.Login.{IsLoggedIn, execute_login_flow_outcome}
use claude_oauth_proxy.Cli.Serve.{
  listen, after_login, log_in, not_logged_in, unauthenticated_lines, token_or_login, ensure_login,
  serve_with,
}

module _ {W : Type 0} (o : Outside W) (cfg : Config) (auth : AuthService W) (open_it : Bool)
    (code : String) where
  -- No session, or a session that gives no token.
  pub data Lacking (v : W) : W → Type 0 where
    no_session :
        (status : StatusOutput) (w : W)
        → auth.status v ≡ (ok status, w)
        → status.exists ≡ false
        → Lacking v w
    no_token :
        (status : StatusOutput) (e : Error) (w x : W)
        → auth.status v ≡ (ok status, w)
        → status.exists ≡ true
        → auth.access_token false w ≡ (err e, x)
        → Lacking v x

  -- What lets a server start, and the console it starts with: a login that was asked for, a session
  -- that gives a token, a login in place of one, or the configuration that wants none.
  pub data Admitted (relogin : Bool) (k : Console W) : Console W → Type 0 where
    asked :
        (mid : Console W)
        → relogin ≡ true
        → IsLoggedIn o auth open_it code k mid
        → Admitted relogin k mid
    session :
        (status : StatusOutput) (token : AccessTokenOutput) (w x : W)
        → relogin ≡ false
        → auth.status k.world ≡ (ok status, w)
        → status.exists ≡ true
        → auth.access_token false w ≡ (ok token, x)
        → Admitted relogin k (record k { world = x })
    replaced :
        (x : W) (mid : Console W)
        → relogin ≡ false
        → cfg.no_auto_login ≡ false
        → Lacking k.world x
        → IsLoggedIn o auth open_it code (record k { world = x }) mid
        → Admitted relogin k mid
    unauthenticated :
        (x : W)
        → relogin ≡ false
        → cfg.no_auto_login ≡ true
        → Lacking k.world x
        → Admitted relogin k (record k { world = x; stderr = k.stderr ++ unauthenticated_lines })

  -- An end without the server: an exit code that is not 0, or a panic.
  pub data Refused : Exit × Console W → Type 0 where
    failing : (n : ℕ) (k : Console W) → Refused (exited (suc n), k)
    panicking : (k : Console W) → Refused (crashed, k)

  module _ (next : Command W) where
    logged :
        (k : Console W) (r : Exit × Console W)
        → execute_login_flow o auth open_it code k ≡ r
        → ((mid : Console W) × IsLoggedIn o auth open_it code k mid
            × (after_login o next r ≡ next mid))
          ⊎ Refused (after_login o next r)
    logged k (exited zero, mid) e =
        inl (mid, execute_login_flow_outcome o auth open_it code k mid e, refl)
    logged k (exited (suc n), mid) e = inr (failing n mid)
    logged k (crashed, mid) e = inr (panicking mid)

    -- A command that has come to the server, or has ended without it.
    abbrev Gated : Bool → Console W → Exit × Console W → Type 0
    Gated relogin k r = ((mid : Console W) × Admitted relogin k mid × (r ≡ next mid)) ⊎ Refused r

    relogged-Gated : (k : Console W) → Gated true k (log_in o auth open_it code next k)
    relogged-Gated k = elim (logged k _ refl) [
      | inl (mid, done, e) ↦ inl (mid, asked mid refl done, e)
      | inr away ↦ inr away
    ]

    logged_in-Gated :
        (k : Console W) (x : W)
        → cfg.no_auto_login ≡ false
        → Lacking k.world x
        → Gated false k (log_in o auth open_it code next (record k { world = x }))
    logged_in-Gated k x h l = elim (logged (record k { world = x }) _ refl) [
      | inl (mid, done, e) ↦ inl (mid, replaced x mid refl h l done, e)
      | inr away ↦ inr away
    ]

    lacking-Gated :
        (k : Console W) (x : W)
        → Lacking k.world x
        → Gated false k (not_logged_in o cfg auth open_it code next (record k { world = x }))
    lacking-Gated k x l = elim (Bool-cases cfg.no_auto_login) [
      | inl h ↦ inl (
        _,
        unauthenticated x refl h l,
        ap (λ (c : Command W). c (record k { world = x })) (if_true cfg.no_auto_login _ _ h),
      )
      | inr h ↦
          subst (Gated false k)
            (sym (
              ap (λ (c : Command W). c (record k { world = x }))
                (if_false cfg.no_auto_login _ _ h)))
            (logged_in-Gated k x h l)
    ]

    token-Gated :
        (k : Console W) (status : StatusOutput) (w : W) (r : Result Error AccessTokenOutput × W)
        → auth.status k.world ≡ (ok status, w)
        → status.exists ≡ true
        → auth.access_token false w ≡ r
        → Gated false k (
            resume
              (λ e. not_logged_in o cfg auth open_it code next)
              (λ token. next)
              (record k { world = w })
              r)
    token-Gated k status w (ok token, x) s e t = inl (_, session status token w x refl s e t, refl)
    token-Gated k status w (err f, x) s e t = lacking-Gated k x (no_token status f w x s e t)
    token-Gated k status w (panic, x) s e t = inr (panicking _)

    status-Gated :
        (k : Console W) (r : Result Error StatusOutput × W)
        → auth.status k.world ≡ r
        → Gated false k (
            resume
              (give_up "failed to inspect token state")
              (token_or_login o cfg auth open_it code next)
              k
              r)
    status-Gated k (ok status, w) s = elim (Bool-cases status.exists) [
      | inl h ↦ rw h (token-Gated k status w _ s h refl)
      | inr h ↦ rw h (lacking-Gated k w (no_session status w s h))
    ]
    status-Gated k (err e, w) s = inr (failing 0 _)
    status-Gated k (panic, w) s = inr (panicking _)

-- With its flags parsed, serve comes to listen only after a login that was asked for, with a
-- session that gives a token, after a login in place of one, or without any where the configuration
-- wants no login; otherwise it ends with an exit code that is not 0, or by a panic.
pub serve_with_gate :
    {W : Type 0} (o : Outside W) (cfg : Config) (flags : List (String × Flag)) (app : Application W)
    (k : Console W)
    → ((mid : Console W) × Admitted o cfg app.auth
          (not (switch_of "no-browser" flags))
          (word_of "code" flags)
          (switch_of "relogin" flags)
          k
          mid
        × (serve_with o cfg flags app k ≡ listen o cfg app mid))
      ⊎ Refused o cfg app.auth
          (not (switch_of "no-browser" flags))
          (word_of "code" flags)
          (serve_with o cfg flags app k)
unfolding serve_with
serve_with_gate o cfg flags app k = elim (Bool-cases (switch_of "relogin" flags)) [
  | inl h ↦ rw h (relogged-Gated o cfg app.auth _ _ (listen o cfg app) k)
  | inr h ↦
      rw (h, ensure_login)
        (status-Gated o cfg app.auth _ _ (listen o cfg app) k (app.auth.status k.world) refl)
]
