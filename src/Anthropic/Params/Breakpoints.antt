-- ===== src/Anthropic/Params/Breakpoints.antt =====
-- internal/provider/anthropic/service.go: how many cache breakpoints a request carries. (The API
-- takes four at most.)
pub mod Limit
use Prim.Native.Nat.{◌+◌, ◌-◌, ◌≤◌, ◌<◌, min}
use claude_oauth_proxy.Base.{
  ℕ, zero, suc, ◌≡◌, refl, String, Bool, false, List, [], ◌∷◌, ◌++◌, map, arith, count,
  count-append, length, All, trim_space, eq_iff, Bool-cases, ◌==◌, inl, inr,
}
use claude_oauth_proxy.Core.{ok}
use claude_oauth_proxy.Anthropic.Params.Rounds.{convert_from-cons}
use claude_oauth_proxy.Openai.{ChatCompletionMessage, ToolCall, Tool}
use claude_oauth_proxy.Anthropic.Types.{
  TextBlock, ContentBlock, of_text, of_tool_use, of_tool_result, MessageParam, ToolParam,
  MessageNewParams,
}
use claude_oauth_proxy.Anthropic.Params.{
  Option, Converted, user_indices, nth, cache_set, member, convert, convert_from, convert_tools,
  mark_last, tool_use, assistant_blocks, tool_blocks, text_block,
}

abbrev pub block_cached : ContentBlock → Bool
block_cached (of_text b) = b.cached
block_cached (of_tool_use id name input) = false
block_cached (of_tool_result id text) = false

abbrev pub message_breakpoints : List MessageParam → ℕ
message_breakpoints [] = 0
message_breakpoints (m ∷ ms) = count block_cached m.content + message_breakpoints ms

abbrev pub text_cached : TextBlock → Bool
text_cached b = b.cached

abbrev pub tool_cached : {S : Type 0} → ToolParam S → Bool
tool_cached t = t.cached

abbrev pub breakpoints : {F S : Type 0} → MessageNewParams F S → ℕ
breakpoints p =
    count text_cached p.system + message_breakpoints p.messages + count tool_cached p.tools

message_breakpoints-append :
    (xs ys : List MessageParam)
    → message_breakpoints (xs ++ ys) ≡ message_breakpoints xs + message_breakpoints ys
message_breakpoints-append [] ys = omega arith
message_breakpoints-append (x ∷ xs) ys = omega (arith, message_breakpoints-append xs ys)

count-tool_use : (tcs : List ToolCall) → count block_cached (map tool_use tcs) ≡ 0
count-tool_use [] = omega arith
count-tool_use (tc ∷ tcs) = omega (arith, count-tool_use tcs)

count-assistant_blocks :
    (text : String) (tcs : List ToolCall) → count block_cached (assistant_blocks text tcs) ≡ 0
unfolding assistant_blocks
count-assistant_blocks text [] = omega arith
count-assistant_blocks text (tc ∷ tcs) = ground (arith, count-tool_use tcs)

-- How many of the indices are in the set.
abbrev pub hits : List ℕ → List ℕ → ℕ
hits ks us = count (λ u. member u ks) us

pub here : List ℕ → ℕ → List ChatCompletionMessage → ℕ
here ks i ms = hits ks (user_indices i ms)

-- One message adds a breakpoint exactly if it is a user's and its index is in the set.
record Adds (ks : List ℕ) (i : ℕ) (m : ChatCompletionMessage) (c c' : Converted) : Type 0 where
  on_messages :
      message_breakpoints c'.messages ≡ message_breakpoints c.messages + here ks i (m ∷ [])
  on_system : count text_cached c'.system ≡ count text_cached c.system

convert-Adds :
    (ks : List ℕ) (i : ℕ) (m : ChatCompletionMessage) (c c' : Converted)
    → convert ks i m c ≡ ok c'
    → Adds ks i m c c'
unfolding convert user_indices here
convert-Adds ks i m c c' h =
    let text = trim_space m.content in
    let push = λ (content : List ContentBlock) (role : String).
      message_breakpoints-append c.messages (record { role = role; content = content } ∷ []) in
    elim (Bool-cases (trim_space m.role == "user")) [
      | inl user ↦
          let done = rw ((eq_iff (trim_space m.role) "user").0 user) at h in
          ground (arith, push (text_block text (member i ks) ∷ []) "user")
      | inr other ↦ ground (
        arith,
        count-assistant_blocks text m.tool_calls,
        count-append text_cached c.system (record { text = text; cached = false } ∷ []),
        push (assistant_blocks text m.tool_calls) "assistant",
        push (tool_blocks m.tool_call_id text) "user",
      )
    ]

user_indices-cons :
    (ks : List ℕ) (i : ℕ) (m : ChatCompletionMessage) (ms : List ChatCompletionMessage)
    → here ks i (m ∷ ms) ≡ here ks i (m ∷ []) + here ks (suc i) ms
unfolding here user_indices
user_indices-cons ks i m ms = elim (Bool-cases (trim_space m.role == "user")) [
  | inl user ↦ rw user (omega arith)
  | inr other ↦ rw other (omega arith)
]

pub convert_from-breakpoints :
    (ks : List ℕ) (i : ℕ) (ms : List ChatCompletionMessage) (c c' : Converted)
    → convert_from ks i ms c ≡ ok c'
    → (message_breakpoints c'.messages ≡ message_breakpoints c.messages + here ks i ms)
      × (count text_cached c'.system ≡ count text_cached c.system)
unfolding convert_from here user_indices
convert_from-breakpoints ks i [] c c' h = ground arith
convert_from-breakpoints ks i (m ∷ ms) c c' h =
    let (d, first, later) = convert_from-cons ks i m ms c c' h in
    let one = convert-Adds ks i m c d first in
    omega (
      arith,
      one.on_messages,
      one.on_system,
      convert_from-breakpoints ks (suc i) ms d c' later,
      user_indices-cons ks i m ms,
    )

-- The last two of a list, or all that there are.
pub last_two : List ℕ → List ℕ
last_two [] = []
last_two (i ∷ []) = i ∷ []
last_two (i ∷ j ∷ []) = i ∷ j ∷ []
last_two (i ∷ j ∷ k ∷ ks) = last_two (j ∷ k ∷ ks)

nth-cons : (x : ℕ) (xs : List ℕ) (n : ℕ) → 0 < n → nth (x ∷ xs) n ≡ nth xs (n - 1)
nth-cons x xs zero h = absurd (omega arith)
nth-cons x xs (suc n) h = ground arith

pub cache_set-eq-last_two : (us : List ℕ) → cache_set us ≡ last_two us
unfolding cache_set last_two
cache_set-eq-last_two [] = refl
cache_set-eq-last_two (i ∷ []) = refl
cache_set-eq-last_two (i ∷ j ∷ []) = refl
cache_set-eq-last_two (i ∷ j ∷ k ∷ ks) = ground (
  arith,
  cache_set-eq-last_two (j ∷ k ∷ ks),
  nth-cons i (j ∷ k ∷ ks) (length (i ∷ j ∷ k ∷ ks) - 2),
  nth-cons i (j ∷ k ∷ ks) (length (i ∷ j ∷ k ∷ ks) - 1),
)

-- Each index is below those after it.
abbrev pub IsRising : List ℕ → Type 0
IsRising [] = Unit
IsRising (i ∷ us) = All (λ j. i < j) us × IsRising us

not-member-last_two : (i : ℕ) (us : List ℕ) → All (λ j. i < j) us → member i (last_two us) ≡ false
unfolding last_two
not-member-last_two i [] h = refl
not-member-last_two i (j ∷ []) h = ground arith
not-member-last_two i (j ∷ k ∷ []) h = ground arith
not-member-last_two i (j ∷ k ∷ l ∷ us) h = not-member-last_two i (k ∷ l ∷ us) h.1

pub hits-last_two : (us : List ℕ) → IsRising us → hits (last_two us) us ≡ min 2 (length us)
unfolding last_two
hits-last_two [] h = omega arith
hits-last_two (i ∷ []) h = ground arith
hits-last_two (i ∷ j ∷ []) h = ground arith
hits-last_two (i ∷ j ∷ k ∷ us) h =
    ground (arith, hits-last_two (j ∷ k ∷ us) h.1, not-member-last_two i (j ∷ k ∷ us) h.0)

user_indices-from :
    (i j : ℕ) (ms : List ChatCompletionMessage) → i < j → All (λ k. i < k) (user_indices j ms)
unfolding user_indices
user_indices-from i j [] h = tt
user_indices-from i j (m ∷ ms) h = ground (arith, user_indices-from i (suc j) ms (omega arith))

pub user_indices-IsRising : (i : ℕ) (ms : List ChatCompletionMessage) → IsRising (user_indices i ms)
unfolding user_indices
user_indices-IsRising i [] = tt
user_indices-IsRising i (m ∷ ms) =
    ground (arith, user_indices-IsRising (suc i) ms, user_indices-from i (suc i) ms (omega arith))

pub mark_last-cached :
    (bs : List TextBlock)
    → count text_cached bs ≡ 0
    → count text_cached (mark_last bs) ≡ min 1 (length bs)
unfolding mark_last
mark_last-cached [] h = omega arith
mark_last-cached (b ∷ []) h = ground arith
mark_last-cached (b ∷ c ∷ bs) h = ground (arith, mark_last-cached (c ∷ bs))

module _ {S : Type 0} (parse_schema : String → Option S) where
  convert_tools_past :
      (total idx : ℕ) (tools : List Tool)
      → total ≤ idx
      → 0 < total
      → count tool_cached (convert_tools parse_schema total idx tools) ≡ 0
  unfolding convert_tools
  convert_tools_past total idx [] h p = refl
  convert_tools_past total idx (t ∷ ts) h p =
      ground (arith, convert_tools_past total (suc idx) ts (omega arith) p)

  pub convert_tools-cached :
      (total idx : ℕ) (tools : List Tool)
      → 0 < total
      → count tool_cached (convert_tools parse_schema total idx tools) ≤ 1
  unfolding convert_tools
  convert_tools-cached total idx [] p = omega arith
  convert_tools-cached total idx (t ∷ ts) p =
      ground
        (arith, convert_tools-cached total (suc idx) ts p, convert_tools_past total (suc idx) ts)
