-- ===== src/Anthropic/Params/Messages.antt =====
-- internal/provider/anthropic/service.go: the loop of `messageParams` over the messages.
use Prim.Native.Nat.{◌-◌}
use claude_oauth_proxy.Base.{
  ℕ, zero, suc, String, Bool, false, ◌||◌, none, some, List, [], ◌∷◌, ◌++◌, ◌⧺◌, ◌==◌, map,
  if◌then◌else◌, leb, nat_eq, length, trim_space, is_empty,
}
use claude_oauth_proxy.Core.{panic, Error, new_error, Result, ok, err}
use claude_oauth_proxy.Openai.{ChatCompletionMessage, ToolCall}
use claude_oauth_proxy.Anthropic.Types.{
  TextBlock, ContentBlock, of_text, of_tool_use, of_tool_result, MessageParam,
}

-- What the loop has built: `systemBlocks` and `params.Messages`.
pub record Converted : Type 0 where
  pub system : List TextBlock
  pub messages : List MessageParam

-- `userIndices`, from the index of the first message.
unfoldable pub user_indices : ℕ → List ChatCompletionMessage → List ℕ
user_indices i [] = []
user_indices i (m ∷ ms) =
    let rest = user_indices (suc i) ms in if trim_space m.role == "user" then i ∷ rest else rest

abbrev pub nth : List ℕ → ℕ → ℕ
nth [] n = 0
nth (x ∷ xs) zero = x
nth (x ∷ xs) (suc n) = nth xs n

-- `cacheSet`, as the list of the indices that it holds.
unfoldable pub cache_set : List ℕ → List ℕ
cache_set users =
    if leb 2 (length users)
    then nth users (length users - 2) ∷ nth users (length users - 1) ∷ []
    else if nat_eq (length users) 1
    then nth users 0 ∷ []
    else []

abbrev pub member : ℕ → List ℕ → Bool
member n [] = false
member n (k ∷ ks) = nat_eq n k || member n ks

abbrev pub text_block : String → Bool → ContentBlock
text_block text cached = of_text (record { text = text; cached = cached })

abbrev pub tool_use : ToolCall → ContentBlock
tool_use tc =
    of_tool_use tc.id tc.function.name
      (if is_empty tc.function.arguments then "{}" else tc.function.arguments)

unfoldable pub assistant_blocks : String → List ToolCall → List ContentBlock
assistant_blocks text [] = text_block text false ∷ []
assistant_blocks text (tc ∷ tcs) =
    (if is_empty text then [] else text_block text false ∷ []) ++ map tool_use (tc ∷ tcs)

unfoldable pub tool_blocks : String → String → List ContentBlock
tool_blocks id text = of_tool_result id (if is_empty text then none else some text) ∷ []

abbrev pub push_message : String → List ContentBlock → Converted → Converted
push_message role content c = record c {
  messages = c.messages ++ record { role = role; content = content } ∷ [];
}

abbrev pub push_system : String → Converted → Converted
push_system text c =
    if is_empty text
    then c
    else record c { system = c.system ++ record { text = text; cached = false } ∷ [] }

-- One round of the loop. (%q also escapes what is not printable in the role.)
unfoldable pub convert : List ℕ → ℕ → ChatCompletionMessage → Converted → Result Error Converted
unfolding assistant_blocks tool_blocks
convert cached i m c =
    let text = trim_space m.content in
    let role = trim_space m.role in
    if role == "system"
    then ok (push_system text c)
    else if role == "user"
    then ok (push_message "user" (text_block text (member i cached) ∷ []) c)
    else if role == "assistant"
    then ok (push_message "assistant" (assistant_blocks text m.tool_calls) c)
    else if role == "tool"
    then ok (push_message "user" (tool_blocks m.tool_call_id text) c)
    else err (new_error "UNSUPPORTED_ROLE" 400 ("unsupported message role \"" ⧺ m.role ⧺ "\"") none)

unfoldable pub convert_from :
    List ℕ → ℕ → List ChatCompletionMessage → Converted → Result Error Converted
unfolding convert
convert_from cached i [] c = ok c
convert_from cached i (m ∷ ms) c = elim (convert cached i m c) [
  | ok c' ↦ convert_from cached (suc i) ms c'
  | err e ↦ err e
  | panic ↦ panic
]
