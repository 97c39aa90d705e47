-- ===== src/Anthropic/Calls/Laws.antt =====
-- internal/provider/anthropic/service.go: how often `ListModels` and `CreateChatCompletion` call the
-- token source and the SDK, and with which tokens.
use mathlib.Core.Path.{refl}
use claude_oauth_proxy.Base.{inr, inl, Bool-cases, String, true, false, ◌≡◌}
use claude_oauth_proxy.Core.{Error, Result, ok, err, panic, Action}
use claude_oauth_proxy.Auth.{AccessTokenOutput}
use claude_oauth_proxy.Anthropic.Errors.{SdkError, unauthorized, translate_error}
use claude_oauth_proxy.Anthropic.Calls.{translated, settled, recalled, Upstream, call_twice}

-- The ways that a call with a token ends. Every outcome but `panicked` names the world at each step.
pub data Outcome {W F S A : Type 0} (up : Upstream W F S) (message : String)
    (call : String → Action W SdkError A) (token : String) (w : W)
    : Result Error A × W → Type 0 where
  answered :
      (a : A) (w' : W) → call token w ≡ (ok a, w') → Outcome up message call token w (ok a, w')
  refused :
      (e : SdkError) (w' : W)
      → call token w ≡ (err e, w')
      → unauthorized e ≡ false
      → Outcome up message call token w (err (translate_error message e), w')
  locked_out :
      (e : SdkError) (e' : Error) (w' w'' : W)
      → call token w ≡ (err e, w')
      → unauthorized e ≡ true
      → up.access_token true w' ≡ (err e', w'')
      → Outcome up message call token w (err e', w'')
  answered_again :
      (e : SdkError) (t : AccessTokenOutput) (a : A) (w' w'' w3 : W)
      → call token w ≡ (err e, w')
      → unauthorized e ≡ true
      → up.access_token true w' ≡ (ok t, w'')
      → call t.token w'' ≡ (ok a, w3)
      → Outcome up message call token w (ok a, w3)
  refused_again :
      (e e' : SdkError) (t : AccessTokenOutput) (w' w'' w3 : W)
      → call token w ≡ (err e, w')
      → unauthorized e ≡ true
      → up.access_token true w' ≡ (ok t, w'')
      → call t.token w'' ≡ (err e', w3)
      → Outcome up message call token w (err (translate_error message e'), w3)
  panicked : (w' : W) → Outcome up message call token w (panic, w')

module _ {W F S A : Type 0} (up : Upstream W F S) (message : String)
    (call : String → Action W SdkError A) where
  recalled_again-Outcome :
      (token : String) (w w' w'' : W) (e : SdkError) (t : AccessTokenOutput)
      (r : Result SdkError A × W)
      → call token w ≡ (err e, w')
      → unauthorized e ≡ true
      → up.access_token true w' ≡ (ok t, w'')
      → call t.token w'' ≡ r
      → Outcome up message call token w (translated up message call r)
  recalled_again-Outcome token w w' w'' e t (ok a, w3) f u g h =
      answered_again e t a w' w'' w3 f u g h
  recalled_again-Outcome token w w' w'' e t (err e', w3) f u g h =
      refused_again e e' t w' w'' w3 f u g h
  recalled_again-Outcome token w w' w'' e t (panic, w3) f u g h = panicked w3

  recalled-Outcome :
      (token : String) (w w' : W) (e : SdkError) (r : Result Error AccessTokenOutput × W)
      → call token w ≡ (err e, w')
      → unauthorized e ≡ true
      → up.access_token true w' ≡ r
      → Outcome up message call token w (recalled up message call r)
  recalled-Outcome token w w' e (ok t, w'') f u g =
      recalled_again-Outcome token w w' w'' e t (call t.token w'') f u g refl
  recalled-Outcome token w w' e (err e', w'') f u g = locked_out e e' w' w'' f u g
  recalled-Outcome token w w' e (panic, w'') f u g = panicked w''

  settled-Outcome :
      (token : String) (w : W) (r : Result SdkError A × W)
      → call token w ≡ r
      → Outcome up message call token w (settled up message call r)
  settled-Outcome token w (ok a, w') f = answered a w' f
  settled-Outcome token w (panic, w') f = panicked w'
  settled-Outcome token w (err e, w') f = elim (Bool-cases (unauthorized e)) [
    | inl u ↦ rw u (recalled-Outcome token w w' e (up.access_token true w') f u refl)
    | inr u ↦ rw u (refused e w' f u)
  ]

  -- Unless something panics, a call with a token ends with what the SDK answers, or with its error
  -- translated when it is not a 401. After a 401 the token source is made to refresh once and the
  -- call is made once more, with the new token; what that gives is the end, a second 401 included,
  -- and when the refresh fails its error is.
  pub call_twice-Outcome :
      (token : String) (w : W)
      → Outcome up message call token w (call_twice up message call token w)
  unfolding call_twice
  call_twice-Outcome token w = settled-Outcome token w (call token w) refl
