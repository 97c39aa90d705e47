-- ===== src/Anthropic/Stream/Client.antt =====
-- internal/provider/anthropic/service.go: a client that puts the chunks of
-- `CreateChatCompletionStream` together, as the OpenAI clients do, by the index of each tool call.
use claude_oauth_proxy.Base.{
  ℕ, ℤ, zero, suc, pos, negsuc, String, ◌⧺◌, Option, none, some, List, [], ◌∷◌, ◌++◌, ◌≡◌, length,
  ap,
}
use mathlib.Core.Path.{refl}
use package.text.Mathlib.TextLemmas
use claude_oauth_proxy.Openai.{ToolCall, ChatCompletionChunk, ChatCompletionChunkChoice}

-- The text and the calls of an answer.
pub record Answer : Type 0 where
  pub content : String
  pub calls : List ToolCall

abbrev pub nothing_said : Answer
nothing_said = record { content = ""; calls = [] }

-- A later delta of a call adds to its arguments.
abbrev pub extend : ToolCall → String → ToolCall
extend call arguments = record call {
  function = record call.function { arguments = call.function.arguments ⧺ arguments };
}

abbrev pub unnumbered : ToolCall → ToolCall
unnumbered call = record call { index = none }

unfoldable pub place : ℕ → ToolCall → List ToolCall → List ToolCall
place n call [] = call ∷ []
place zero call (c ∷ cs) = extend c call.function.arguments ∷ cs
place (suc n) call (c ∷ cs) = c ∷ place n call cs

-- A call without an index, or with a negative one, is dropped.
abbrev pub put_at : Option ℤ → ToolCall → List ToolCall → List ToolCall
put_at none call cs = cs
put_at (some (pos n)) call cs = place n call cs
put_at (some (negsuc n)) call cs = cs

abbrev pub put_calls : List ToolCall → List ToolCall → List ToolCall
put_calls [] cs = cs
put_calls (call ∷ calls) cs = put_calls calls (put_at call.index (unnumbered call) cs)

abbrev pub hear_choices : List ChatCompletionChunkChoice → Answer → Answer
hear_choices [] a = a
hear_choices (c ∷ cs) a =
    hear_choices cs (record {
      content = a.content ⧺ c.delta.content;
      calls = put_calls c.delta.tool_calls a.calls;
    })

abbrev pub hear : {F : Type 0} → List (ChatCompletionChunk F) → Answer → Answer
hear [] a = a
hear (c ∷ cs) a = hear cs (hear_choices c.choices a)

place_new : (call : ToolCall) (cs : List ToolCall) → place (length cs) call cs ≡ cs ++ call ∷ []
unfolding place
place_new call [] = refl
place_new call (c ∷ cs) = ap (c ∷◌) (place_new call cs)

place_last :
    (call last : ToolCall) (cs : List ToolCall)
    → place (length cs) call (cs ++ last ∷ []) ≡ cs ++ extend last call.function.arguments ∷ []
unfolding place
place_last call last [] = refl
place_last call last (c ∷ cs) = ap (c ∷◌) (place_last call last cs)

-- What a delta without text does, with the next call.
pub hear_new :
    (content : String) (i : Option ℤ) (call : ToolCall) (cs : List ToolCall)
    → i ≡ some (pos (length cs))
    → Path Answer
        (record { content = content ⧺ ""; calls = put_at i call cs })
        (record { content = content; calls = cs ++ call ∷ [] })
hear_new content i call cs h = rw (h, place_new call cs, TextLemmas.append-nil content) refl

-- What a delta without text does, with more input for the last call.
pub hear_last :
    (content : String) (i : Option ℤ) (call last : ToolCall) (cs : List ToolCall)
    → i ≡ some (pos (length cs))
    → Path Answer
        (record { content = content ⧺ ""; calls = put_at i call (cs ++ last ∷ []) })
        (record { content = content; calls = cs ++ extend last call.function.arguments ∷ [] })
hear_last content i call last cs h =
    rw (h, place_last call last cs, TextLemmas.append-nil content) refl
