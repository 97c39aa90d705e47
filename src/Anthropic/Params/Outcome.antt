-- ===== src/Anthropic/Params/Outcome.antt =====
-- internal/provider/anthropic/service.go: when `messageParams` succeeds, of what, and when it fails.
use claude_oauth_proxy.Base.{
  ap, ℤ, ◌≡◌, ◌≢◌, inl, inr, refl, String, false, Option, List, [], arith, is_blank, length, nat_eq,
  Bool-cases,
}
use claude_oauth_proxy.Core.{Error, Result, ok, err, panic}
use claude_oauth_proxy.Openai.{ChatCompletionRequest}
use claude_oauth_proxy.Anthropic.Types.{TextBlock, MessageNewParams, Config}
use claude_oauth_proxy.Anthropic.Params.{
  Converted, user_indices, cache_set, convert_from, message_params, bill, assemble, finish,
}

abbrev pub start : List TextBlock → Converted
start blocks = record { system = blocks; messages = [] }

module _ {F S : Type 0} (one : F) (parse_schema : String → Option S) (cfg : Config)
    (request : ChatCompletionRequest F) where
  abbrev pub conversion : List TextBlock → Result Error Converted
  conversion blocks =
      convert_from (cache_set (user_indices 0 request.messages)) 0 request.messages (start blocks)

  -- What a successful call was made of.
  pub record IsBuilt (turn : ℤ) (p : MessageNewParams F S) (turn' : ℤ) : Type 0 where
    pub converted : Converted
    pub named : is_blank request.model ≡ false
    pub some_messages : request.messages ≢ []
    pub rounds : conversion (bill cfg turn).0 ≡ ok converted
    pub result : p ≡ assemble one parse_schema request converted
    pub counted : turn' ≡ (bill cfg turn).1

  finish-eq-ok :
      (r : Result Error Converted) (p : MessageNewParams F S)
      → finish one parse_schema request r ≡ ok p
      → (c : Converted) × (r ≡ ok c) × (p ≡ assemble one parse_schema request c)
  unfolding message_params
  finish-eq-ok (ok c) p h = (c, refl, ground arith)
  finish-eq-ok (err e) p h = cc
  finish-eq-ok panic p h = cc

  pub message_params-IsBuilt :
      (turn turn' : ℤ) (p : MessageNewParams F S)
      → message_params one parse_schema cfg request turn ≡ (ok p, turn')
      → IsBuilt turn p turn'
  unfolding message_params
  message_params-IsBuilt turn turn' p h = elim (Bool-cases (is_blank request.model)) [
    | inl blank ↦ absurd (ground arith)
    | inr named ↦ elim (Bool-cases (nat_eq (length request.messages) 0)) [
      | inl empty ↦ absurd (ground arith)
      | inr more ↦
          let done = rw (named, more) at h in
          let (c, rounds, result) =
            finish-eq-ok (conversion (bill cfg turn).0) p
              (ap (λ (q : Result Error (MessageNewParams F S) × ℤ). q.0) done) in
          record {
            converted = c;
            named = named;
            some_messages = ground arith;
            rounds = rounds;
            result = result;
            counted = ground arith;
          }
    ]
  ]
