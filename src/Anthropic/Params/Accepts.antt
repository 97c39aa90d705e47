-- ===== src/Anthropic/Params/Accepts.antt =====
-- internal/provider/anthropic/service.go: which requests are accepted, and the roles that come out.
use claude_oauth_proxy.Base.{
  append-nil, append_assoc, map-append, ℕ, ℤ, suc, ◌≡◌, ◌≢◌, ◌↔◌, refl, String, Bool, true, false,
  ◌||◌, ◌==◌, Option, List, [], ◌∷◌, ◌++◌, map, arith, is_blank, trim_space, all, eq_iff,
  if◌then◌else◌,
}
use claude_oauth_proxy.Core.{Error, Result, ok, err, panic}
use claude_oauth_proxy.Openai.{ChatCompletionRequest, ChatCompletionMessage}
use claude_oauth_proxy.Anthropic.Types.{MessageParam, MessageNewParams, Config}
use claude_oauth_proxy.Anthropic.Params.{
  text_block, tool_blocks, assistant_blocks, member, Converted, cache_set, user_indices, convert,
  convert_from, message_params, bill, assemble, think,
}
use claude_oauth_proxy.Anthropic.Params.Outcome.{message_params-IsBuilt, start}
use claude_oauth_proxy.Anthropic.Params.Rounds.{convert_from-cons}

abbrev pub is_known : ChatCompletionMessage → Bool
is_known m =
    let role = trim_space m.role in
    role == "system" || role == "user" || role == "assistant" || role == "tool"

-- A system message leaves the conversation; a tool's answer comes from the user.
abbrev pub roles_out : List ChatCompletionMessage → List String
roles_out [] = []
roles_out (m ∷ ms) =
    (if trim_space m.role == "system"
      then []
      else (if trim_space m.role == "assistant" then "assistant" else "user") ∷ [])
    ++ roles_out ms

abbrev pub role_of : MessageParam → String
role_of m = m.role

convert-known :
    (ks : List ℕ) (i : ℕ) (m : ChatCompletionMessage) (c c' : Converted)
    → convert ks i m c ≡ ok c'
    → is_known m ≡ true
unfolding convert
convert-known ks i m c c' h = ground arith

convert-total :
    (ks : List ℕ) (i : ℕ) (m : ChatCompletionMessage) (c : Converted)
    → is_known m ≡ true
    → (c' : Converted) × (convert ks i m c ≡ ok c')
unfolding convert
convert-total ks i m c k = go (convert ks i m c) refl
  where
    go :
        (r : Result Error Converted)
        → convert ks i m c ≡ r
        → (c' : Converted) × (convert ks i m c ≡ ok c')
    go (ok c') e = (c', e)
    go (err x) e = absurd (ground arith)
    go panic e = absurd (ground arith)

convert_from-known :
    (ks : List ℕ) (i : ℕ) (ms : List ChatCompletionMessage) (c c' : Converted)
    → convert_from ks i ms c ≡ ok c'
    → all is_known ms ≡ true
convert_from-known ks i [] c c' h = refl
convert_from-known ks i (m ∷ ms) c c' h =
    let (d, first, later) = convert_from-cons ks i m ms c c' h in
    rw (convert-known ks i m c d first) (convert_from-known ks (suc i) ms d c' later)

convert_from-total :
    (ks : List ℕ) (i : ℕ) (ms : List ChatCompletionMessage) (c : Converted)
    → all is_known ms ≡ true
    → (c' : Converted) × (convert_from ks i ms c ≡ ok c')
unfolding convert_from
convert_from-total ks i [] c k = (c, refl)
convert_from-total ks i (m ∷ ms) c k =
    let (d, first) = convert-total ks i m c (ground arith) in
    let (c', later) = convert_from-total ks (suc i) ms d (ground arith) in
    (c', rw (first, convert_from) later)

convert-roles :
    (ks : List ℕ) (i : ℕ) (m : ChatCompletionMessage) (c c' : Converted)
    → convert ks i m c ≡ ok c'
    → map role_of c'.messages ≡ map role_of c.messages ++ roles_out (m ∷ [])
unfolding convert
convert-roles ks i m c c' h = ground (
  arith,
  append-nil (map role_of c.messages),
  eq_iff (trim_space m.role) "system",
  eq_iff (trim_space m.role) "user",
  eq_iff (trim_space m.role) "assistant",
  eq_iff (trim_space m.role) "tool",
  map-append role_of c.messages (
      record { role = "user"; content = text_block (trim_space m.content) (member i ks) ∷ [] }
      ∷ []),
  map-append role_of c.messages (
      record { role = "assistant"; content = assistant_blocks (trim_space m.content) m.tool_calls }
      ∷ []),
  map-append role_of c.messages
      (record { role = "user"; content = tool_blocks m.tool_call_id (trim_space m.content) } ∷ []),
)

convert_from-roles :
    (ks : List ℕ) (i : ℕ) (ms : List ChatCompletionMessage) (c c' : Converted)
    → convert_from ks i ms c ≡ ok c'
    → map role_of c'.messages ≡ map role_of c.messages ++ roles_out ms
unfolding convert_from
convert_from-roles ks i [] c c' h = ground (arith, append-nil (map role_of c.messages))
convert_from-roles ks i (m ∷ ms) c c' h =
    let (d, first, later) = convert_from-cons ks i m ms c c' h in
    simp (
      convert_from-roles ks (suc i) ms d c' later,
      convert-roles ks i m c d first,
      append_assoc,
      append-nil,
    )

module _ {F S : Type 0} (one : F) (parse_schema : String → Option S) (cfg : Config)
    (request : ChatCompletionRequest F) where
  -- The conversation of a request that is built has the turns of the client in order, without the
  -- system messages, and with a tool answer as the user.
  pub message_params-roles :
      (turn turn' : ℤ) (p : MessageNewParams F S)
      → message_params one parse_schema cfg request turn ≡ (ok p, turn')
      → map role_of p.messages ≡ roles_out request.messages
  unfolding assemble think
  message_params-roles turn turn' p h =
      let b = message_params-IsBuilt one parse_schema cfg request turn turn' p h in
      let roles = convert_from-roles _ 0 request.messages _ b.converted b.rounds in
      ground (arith, b.result, roles)

  -- A request is built exactly if it names a model, has a message, and every role is system, user,
  -- assistant or tool.
  pub message_params-ok_iff :
      (turn : ℤ)
      → ((p : MessageNewParams F S) × ((message_params one parse_schema cfg request turn).0 ≡ ok p))
        ↔ ((is_blank request.model ≡ false)
            × (request.messages ≢ [])
            × (all is_known request.messages ≡ true))
  unfolding message_params
  message_params-ok_iff turn = (
    (λ e.
        let b =
          message_params-IsBuilt one parse_schema cfg request turn
            (message_params one parse_schema cfg request turn).1 e.0 (cc (e.1)) in
        (b.named, b.some_messages, convert_from-known _ 0 request.messages _ b.converted b.rounds)),
    (λ k.
        let (c, rounds) =
          convert_from-total (cache_set (user_indices 0 request.messages)) 0 request.messages
            (start (bill cfg turn).0) k.2 in
        (assemble one parse_schema request c, rw k.0 (ground (arith, rounds, k.1)))),
  )
