-- ===== src/Anthropic/Params/Rounds.antt =====
-- internal/provider/anthropic/service.go: the loop over the messages, one round at a time.
use claude_oauth_proxy.Base.{ℕ, suc, ◌≡◌, refl, List, ◌∷◌, arith}
use claude_oauth_proxy.Core.{Error, Result, ok, err, panic}
use claude_oauth_proxy.Openai.{ChatCompletionMessage}
use claude_oauth_proxy.Anthropic.Params.{Converted, convert, convert_from}

module _ (ks : List ℕ) (i : ℕ) (m : ChatCompletionMessage) (ms : List ChatCompletionMessage)
    (c c' : Converted) where
  rounds_from :
      (r : Result Error Converted)
      → convert ks i m c ≡ r
      → convert_from ks i (m ∷ ms) c ≡ ok c'
      → (d : Converted) × (convert ks i m c ≡ ok d) × (convert_from ks (suc i) ms d ≡ ok c')
  unfolding convert_from
  rounds_from (ok d) e h = (d, e, rw (e, convert_from) at h)
  rounds_from (err x) e h = absurd (ground (arith, rw (e, convert_from) at h))
  rounds_from panic e h = absurd (ground (arith, rw (e, convert_from) at h))

  -- If the loop succeeds, its first round and the others do.
  pub convert_from-cons :
      convert_from ks i (m ∷ ms) c ≡ ok c'
      → (d : Converted) × (convert ks i m c ≡ ok d) × (convert_from ks (suc i) ms d ≡ ok c')
  convert_from-cons h = rounds_from (convert ks i m c) refl h
