-- ===== src/Anthropic/Stream/Blocks.antt =====
-- internal/provider/anthropic/service.go: the events of `CreateChatCompletionStream` that stream the
-- blocks of a message.
use claude_oauth_proxy.Base.{
  String, ◌⧺◌, Bool, true, false, not, ◌==◌, List, [], ◌∷◌, ◌++◌, map, ◌≡◌,
}
use claude_oauth_proxy.Json.Raw.{compact, document}
use claude_oauth_proxy.Anthropic.Stream.Events.{
  Event, Delta, content_block_start, content_block_delta, message_start, message_delta,
  message_stop, other_event, text_delta, thinking_delta, input_json_delta, other_delta,
}
use claude_oauth_proxy.Anthropic.Response.{Block, text, thinking, tool_use, other_block}

abbrev pub joined : List String → String
joined [] = ""
joined (t ∷ ts) = t ⧺ joined ts

abbrev pub deltas : (String → Delta) → List String → List Event
deltas of ts = map (λ t. content_block_delta (of t)) ts

-- The events that belong to no text, thinking or tool input, and start no tool.
abbrev pub is_silent : Event → Bool
is_silent (content_block_start kind id name) = not (kind == "tool_use")
is_silent (content_block_delta other_delta) = true
is_silent (content_block_delta d) = false
is_silent (message_start input output creation cached) = true
is_silent (message_delta output creation cached) = true
is_silent message_stop = false
is_silent other_event = true

-- The input of a tool as it is streamed, and the input of the whole message as it is marshalled: the
-- same document without the space between its tokens, or nothing for the empty object.
pub data IsSameInput : String → String → Type 0 where
  written : (streamed : String) → IsSameInput streamed (compact streamed)
  nothing : IsSameInput "" "{}"

-- The events that stream the blocks of a message: each text, thinking and tool input in one or more
-- deltas or none, a tool after its start, and the other events between the blocks. The input of the
-- tool may be written with other space than in the message.
pub data IsStreamOf : List Event → List Block → Type 0 where
  ended : IsStreamOf [] []
  stopped : (es : List Event) → IsStreamOf (message_stop ∷ es) []
  between :
      (e : Event) (es : List Event) (bs : List Block)
      → is_silent e ≡ true
      → IsStreamOf es bs
      → IsStreamOf (e ∷ es) bs
  texts :
      (ts : List String) (es : List Event) (bs : List Block)
      → IsStreamOf es bs
      → IsStreamOf (deltas text_delta ts ++ es) (text (joined ts) ∷ bs)
  thoughts :
      (ts : List String) (es : List Event) (bs : List Block)
      → IsStreamOf es bs
      → IsStreamOf (deltas thinking_delta ts ++ es) (thinking (joined ts) ∷ bs)
  tool :
      (id name : String) (ts : List String) (input : String) (es : List Event) (bs : List Block)
      → IsSameInput (joined ts) (compact input)
      → IsStreamOf es bs
      → IsStreamOf
          (content_block_start "tool_use" id name ∷ deltas input_json_delta ts ++ es)
          (tool_use id name (document input) ∷ bs)
  others : (es : List Event) (bs : List Block) → IsStreamOf es bs → IsStreamOf es (other_block ∷ bs)
