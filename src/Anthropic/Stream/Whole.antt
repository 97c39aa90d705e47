-- ===== src/Anthropic/Stream/Whole.antt =====
-- internal/provider/anthropic/service.go: what a streamed answer says, against `mapResponse` of the
-- whole message.
use mathlib.Core.Path.{refl, ap, ◌∙◌}
use package.text.Mathlib.TextLemmas
use claude_oauth_proxy.Base.{
  arith, ℕ, ℤ, suc, pos, String, ◌⧺◌, true, none, some, List, [], ◌∷◌, ◌++◌, map, ◌≡◌, length,
  length-append, ltb, append-nil, append_assoc, ◌+◌, ◌<◌, ◌^◌,
}
use claude_oauth_proxy.Anthropic.Stream.Drain.{run, drain, drain_total}
use claude_oauth_proxy.Anthropic.Stream.Events.{Event}
use claude_oauth_proxy.Openai.{ToolCall, ChatCompletionChoice}
use claude_oauth_proxy.Anthropic.Response.{Block, text, Message, map_response}
use claude_oauth_proxy.Anthropic.Response.Laws.{text_of, calls_of, map_response_choices}
use claude_oauth_proxy.Anthropic.Stream.{StreamState, opened, handle, handle_delta, finish_chunk}
use claude_oauth_proxy.Anthropic.Stream.Client.{Answer, nothing_said, hear}
use claude_oauth_proxy.Anthropic.Stream.Blocks.{
  joined, IsSameInput, IsStreamOf, ended, stopped, between, texts, thoughts, tool, others,
}
use claude_oauth_proxy.Anthropic.Stream.Heard.{
  call_of, heard, heard-silent, heard-texts, heard-thoughts, heard-tool,
}

-- The text and the calls of a choice.
abbrev pub answer_of : ChatCompletionChoice → Answer
answer_of c = record { content = c.message.content; calls = c.message.tool_calls }

-- The calls of a streamed and of a whole answer: the same tools in the same order.
pub data SameCalls : List ToolCall → List ToolCall → Type 0 where
  none_called : SameCalls [] []
  called :
      (id name streamed whole : String) (cs ds : List ToolCall)
      → IsSameInput streamed whole
      → SameCalls cs ds
      → SameCalls (call_of id name streamed ∷ cs) (call_of id name whole ∷ ds)

pub record IsSameAnswer (streamed whole : Answer) : Type 0 where
  pub content : streamed.content ≡ whole.content
  pub calls : SameCalls streamed.calls whole.calls

module _ {F : Type 0} (id model : String) (clock : ℕ → ℤ) where
  -- What is heard of the blocks, after the answer `a`.
  record IsHeard (es : List Event) (bs : List Block) (st : StreamState F) (a : Answer)
      : Type 0 where
    said : List ToolCall
    same : SameCalls said (calls_of bs)
    given :
        heard id model clock es st a
        ≡ record { content = a.content ⧺ text_of bs; calls = a.calls ++ said }

  IsStreamOf-IsHeard :
      {es : List Event} {bs : List Block}
      → IsStreamOf es bs
      → (st : StreamState F) (a : Answer) → st.failure ≡ none
      → st.tool_call_index ≡ pos (length a.calls)
      → length a.calls + length (calls_of bs) < 2 ^ 63
      → IsHeard es bs st a
  unfolding run handle handle_delta finish_chunk
  IsStreamOf-IsHeard ended st a f i small = record {
    said = [];
    same = none_called;
    given = rw (f, append-nil) refl;
  }
  IsStreamOf-IsHeard (stopped es) st a f i small = record {
    said = [];
    same = none_called;
    given = rw append-nil refl;
  }
  IsStreamOf-IsHeard (between e es bs h s) st a f i small =
      let (st', on, like) = heard-silent id model clock e es st a h in
      let rest = IsStreamOf-IsHeard s st' a (like.failure ∙ f) (like.index ∙ i) small in
      record { said = rest.said; same = rest.same; given = on ∙ rest.given }
  IsStreamOf-IsHeard (thoughts ts es bs s) st a f i small =
      let (st', on, like) = heard-thoughts id model clock ts es st a in
      let rest = IsStreamOf-IsHeard s st' a (like.failure ∙ f) (like.index ∙ i) small in
      record { said = rest.said; same = rest.same; given = on ∙ rest.given }
  IsStreamOf-IsHeard (others es bs s) st a f i small =
      let rest = IsStreamOf-IsHeard s st a f i small in
      record { said = rest.said; same = rest.same; given = rest.given }
  IsStreamOf-IsHeard (texts ts es bs s) st a f i small =
      let (st', on, like) = heard-texts id model clock ts es st a in
      let rest = IsStreamOf-IsHeard s st' _ (like.failure ∙ f) (like.index ∙ i) small in
      record {
        said = rest.said;
        same = rest.same;
        given =
            on ∙ rest.given ∙ rw (TextLemmas.append_assoc a.content (joined ts) (text_of bs)) refl;
      }
  IsStreamOf-IsHeard (tool id' name ts input es bs u s) st a f i small =
      let (st', on, kept, index) = heard-tool id model clock id' name ts es st a i (omega arith) in
      let call = call_of id' name (joined ts) in
      let grown = length-append a.calls (call ∷ []) in
      let rest =
        IsStreamOf-IsHeard s st' (record a { calls = a.calls ++ call ∷ [] }) (kept ∙ f)
          (index ∙ ap pos (omega arith)) (omega arith) in
      record {
        said = call ∷ rest.said;
        same = called id' name _ _ _ _ u rest.same;
        given = on ∙ rest.given ∙ rw append_assoc refl;
      }

module _ (F : Type 0) (id model : String) (clock : ℕ → ℤ) (nanos seconds : ℤ) where
  -- Where the events of a stream that does not fail stream the blocks of a message, with fewer than
  -- 2^63 tools: a client that calls next more often than there are events, and once more, and puts
  -- the chunks together, each tool input at the index that it comes with, has the text of the
  -- response to the whole message, and calls of the same tools in the same order, with the input as
  -- it was streamed where the response has the compact form of it, or with nothing where the
  -- response has the empty object.
  pub heard-map_response :
      (m : Message) (es : List Event) (fuel : ℕ)
      → IsStreamOf es m.content
      → length (calls_of m.content) < 2 ^ 63
      → ltb (length es) fuel ≡ true
      → (whole : Answer) × (map answer_of
            (map_response {F = F} model (some m) nanos seconds).choices
          ≡ whole ∷ [])
        × IsSameAnswer
            (hear (drain {F = F} id model clock (suc fuel) (opened es none)).chunks nothing_said)
            whole
  heard-map_response m es fuel streams small enough =
      let (finish, _, response) = map_response_choices F model nanos seconds m in
      let heard_all =
        IsStreamOf-IsHeard {F = F} id model clock streams (opened es none) nothing_said refl refl
          (omega arith) in
      let drained = drain_total id model clock (opened {F = F} es none) fuel refl enough in
      (
        record { content = text_of m.content; calls = calls_of m.content },
        rw response refl,
        rw (drained, heard_all.given, TextLemmas.nil-append)
            (record { content = refl; calls = heard_all.same }),
      )
