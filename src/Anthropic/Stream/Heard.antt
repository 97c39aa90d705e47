-- ===== src/Anthropic/Stream/Heard.antt =====
-- internal/provider/anthropic/service.go: what a client of `CreateChatCompletionStream` hears of the
-- events of one block.
use mathlib.Core.Path.{refl, ap, sym, ◌∙◌}
use package.text.Mathlib.TextLemmas
use claude_oauth_proxy.Base.{
  arith, ℕ, ℤ, suc, pos, String, ◌⧺◌, Bool, true, false, ◌||◌, not, ◌==◌, inl, inr, Bool-cases,
  is_positive, none, some, List, [], ◌∷◌, ◌++◌, ◌≡◌, length, add64, add64-suc, add64, sub64-suc,
  ◌<◌, ◌^◌,
}
use claude_oauth_proxy.Anthropic.Stream.Drain.{run}
use claude_oauth_proxy.Anthropic.Stream.Events.{
  Event, content_block_start, content_block_delta, message_start, message_delta, message_stop,
  other_event, text_delta, thinking_delta, input_json_delta, other_delta,
}
use claude_oauth_proxy.Openai.{ToolCall}
use claude_oauth_proxy.Anthropic.Response.{text}
use claude_oauth_proxy.Anthropic.Stream.{StreamState, started, handle, handle_delta}
use claude_oauth_proxy.Anthropic.Stream.Client.{Answer, extend, hear, hear_new, hear_last}
use claude_oauth_proxy.Anthropic.Stream.Blocks.{joined, deltas, is_silent}

extend_twice : (c : ToolCall) (t u : String) → extend (extend c t) u ≡ extend c (t ⧺ u)
extend_twice c t u = rw (TextLemmas.append_assoc c.function.arguments t u) refl

extend_nothing : (c : ToolCall) → extend c "" ≡ c
extend_nothing c = rw (TextLemmas.append-nil c.function.arguments) refl

not-true : (b : Bool) → not b ≡ true → b ≡ false
not-true true h = sym h
not-true false h = refl

abbrev pub call_of : (id name arguments : String) → ToolCall
call_of id name arguments = record {
  index = none;
  id = id;
  kind = "function";
  function = record { name = name; arguments = arguments };
}

module _ {F : Type 0} (id model : String) (clock : ℕ → ℤ) where
  -- What the client has from state `st` on, after the answer `a`.
  abbrev pub heard : List Event → StreamState F → Answer → Answer
  heard es st a = hear (run id model clock es st).chunks a

  -- A state in which as much is known of failures and of tool calls.
  pub record IsLike (st st' : StreamState F) : Type 0 where
    pub failure : st'.failure ≡ st.failure
    pub index : st'.tool_call_index ≡ st.tool_call_index

  pub heard-silent :
      (e : Event) (es : List Event) (st : StreamState F) (a : Answer)
      → is_silent e ≡ true
      → (st' : StreamState F) × (heard (e ∷ es) st a ≡ heard es st' a) × IsLike st st'
  unfolding run handle handle_delta
  heard-silent (content_block_start kind i n) es st a h = (
    st,
    rw (not-true (kind == "tool_use") h, run, handle) refl,
    record { failure = refl; index = refl },
  )
  heard-silent (content_block_delta (text_delta t)) es st a h = ground arith
  heard-silent (content_block_delta (thinking_delta t)) es st a h = ground arith
  heard-silent (content_block_delta (input_json_delta t)) es st a h = ground arith
  heard-silent (content_block_delta other_delta) es st a h =
      (st, refl, record { failure = refl; index = refl })
  heard-silent (message_start input output creation cached) es st a h =
      elim (Bool-cases (is_positive input || is_positive creation || is_positive cached)) [
        | inl e ↦ (
          record st { usage = started input output creation cached st.usage },
          rw (e, run, handle) refl,
          record { failure = refl; index = refl },
        )
        | inr e ↦ (st, rw (e, run, handle) refl, record { failure = refl; index = refl })
      ]
  heard-silent (message_delta output creation cached) es st a h =
      (_, refl, record { failure = refl; index = refl })
  heard-silent message_stop es st a h = ground arith
  heard-silent other_event es st a h = (st, refl, record { failure = refl; index = refl })

  pub heard-thoughts :
      (ts : List String) (es : List Event) (st : StreamState F) (a : Answer)
      → (st' : StreamState F) × (heard (deltas thinking_delta ts ++ es) st a ≡ heard es st' a)
        × IsLike st st'
  unfolding run handle handle_delta
  heard-thoughts [] es st a = (st, refl, record { failure = refl; index = refl })
  heard-thoughts (t ∷ ts) es st a =
      let (st', h, like) = heard-thoughts ts es _ a in
      (st', h, record { failure = like.failure; index = like.index })

  pub heard-texts :
      (ts : List String) (es : List Event) (st : StreamState F) (a : Answer)
      → (st' : StreamState F) × (heard (deltas text_delta ts ++ es) st a
          ≡ heard es st' (record a { content = a.content ⧺ joined ts }))
        × IsLike st st'
  unfolding run handle handle_delta
  heard-texts [] es st a =
      (st, rw (TextLemmas.append-nil a.content) refl, record { failure = refl; index = refl })
  heard-texts (t ∷ ts) es st a =
      let (st', h, like) = heard-texts ts es _ (record a { content = a.content ⧺ t }) in
      (
        st',
        h ∙ rw (TextLemmas.append_assoc a.content t (joined ts)) refl,
        record { failure = like.failure; index = like.index },
      )

  -- Input goes to the last call.
  heard-inputs :
      (ts : List String) (es : List Event) (st : StreamState F) (content : String)
      (cs : List ToolCall) (c : ToolCall)
      → st.tool_call_index ≡ pos (suc (length cs))
      → length cs < 2 ^ 63
      → (st' : StreamState F) × (heard
            (deltas input_json_delta ts ++ es)
            st
            (record { content = content; calls = cs ++ c ∷ [] })
          ≡ heard es st' (record { content = content; calls = cs ++ extend c (joined ts) ∷ [] }))
        × IsLike st st'
  unfolding run handle handle_delta
  heard-inputs [] es st content cs c i small =
      (st, rw (extend_nothing c) refl, record { failure = refl; index = refl })
  heard-inputs (t ∷ ts) es st content cs c i small =
      let on : StreamState F = record st {
        upstream = deltas input_json_delta ts ++ es;
        reads = suc st.reads;
      } in
      let (st', h, like) = heard-inputs ts es on content cs (extend c t) i small in
      (
        st',
        ap (heard (deltas input_json_delta ts ++ es) on)
              (hear_last content _ _ c cs (ap some (rw i (sub64-suc (length cs) small))))
            ∙ h
            ∙ ap (λ d. heard es st' (record { content = content; calls = cs ++ d ∷ [] }))
                (extend_twice c t (joined ts)),
        record { failure = like.failure; index = like.index },
      )

  -- A tool with its input is one more call.
  pub heard-tool :
      (id' name : String) (ts : List String) (es : List Event) (st : StreamState F) (a : Answer)
      → st.tool_call_index ≡ pos (length a.calls)
      → suc (length a.calls) < 2 ^ 63
      → (st' : StreamState F) × (heard
            (content_block_start "tool_use" id' name ∷ deltas input_json_delta ts ++ es)
            st
            a
          ≡ heard es st' (record a { calls = a.calls ++ call_of id' name (joined ts) ∷ [] }))
        × (st'.failure ≡ st.failure)
        × (st'.tool_call_index ≡ pos (suc (length a.calls)))
  unfolding run handle
  heard-tool id' name ts es st a i small =
      let on : StreamState F = record st {
        has_tool_use = true;
        current_tool_id = id';
        current_tool_name = name;
        first_chunk_sent = true;
        tool_call_index = add64 st.tool_call_index (pos 1);
        upstream = deltas input_json_delta ts ++ es;
        reads = suc st.reads;
      } in
      let index : on.tool_call_index ≡ pos (suc (length a.calls)) =
        rw i (add64-suc (length a.calls) small) in
      let (st', heard_on, like) =
        heard-inputs ts es on a.content a.calls (call_of id' name "") index (omega arith) in
      (
        st',
        ap (heard (deltas input_json_delta ts ++ es) on) (
              hear_new a.content (some st.tool_call_index) (call_of id' name "") a.calls
                (ap some i))
            ∙ heard_on
            ∙ rw (TextLemmas.nil-append (joined ts)) refl,
        like.failure,
        like.index ∙ index,
      )
