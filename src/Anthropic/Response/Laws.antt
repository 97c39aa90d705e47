-- ===== src/Anthropic/Response/Laws.antt =====
-- internal/provider/anthropic/service.go: what the response of `mapResponse` says about the message.
use mathlib.Core.Path.{refl, sym, ◌∙◌}
use package.text.Mathlib.TextLemmas
use mathlib.Core.Path.{subst}
use claude_oauth_proxy.Base.{
  ◌==◌, ◌≢◌, eq_iff, is_empty, Bool, true, false, add64_of_small, ◌^◌, ◌<◌, ◌+◌, ℕ, ℤ, pos, String,
  ◌⧺◌, none, some, List, [], ◌∷◌, ◌++◌, ◌≡◌, arith, append-nil, append_assoc,
}
use claude_oauth_proxy.Json.Raw.{marshal_raw}
use claude_oauth_proxy.Openai.{ToolCall}
use claude_oauth_proxy.Anthropic.Response.{
  nothing_gathered, Block, text, thinking, tool_use, other_block, Message, Gathered, gather,
  map_response, finish_of, usage_of, respond,
}

abbrev pub text_of : List Block → String
text_of [] = ""
text_of (text t ∷ bs) = t ⧺ text_of bs
text_of (b ∷ bs) = text_of bs

abbrev pub calls_of : List Block → List ToolCall
calls_of [] = []
calls_of (tool_use id name input ∷ bs) =
    (record {
      index = none;
      id = id;
      kind = "function";
      function = record { name = name; arguments = marshal_raw input };
    })
    ∷ calls_of bs
calls_of (b ∷ bs) = calls_of bs

gather_calls :
    (bs : List Block) (g : Gathered) → (gather bs g).tool_calls ≡ g.tool_calls ++ calls_of bs
unfolding gather
gather_calls [] g = rw append-nil
gather_calls (text t ∷ bs) g = gather_calls bs _
gather_calls (thinking t ∷ bs) g = gather_calls bs _
gather_calls (tool_use id name input ∷ bs) g = rw (gather_calls bs, append_assoc)
gather_calls (other_block ∷ bs) g = gather_calls bs g

gather_text : (bs : List Block) (g : Gathered) → (gather bs g).content ≡ g.content ⧺ text_of bs
unfolding gather
gather_text [] g = sym (TextLemmas.append-nil g.content)
gather_text (text t ∷ bs) g = gather_text bs _ ∙ TextLemmas.append_assoc g.content t (text_of bs)
gather_text (thinking t ∷ bs) g = gather_text bs _
gather_text (tool_use id name input ∷ bs) g = gather_text bs _
gather_text (other_block ∷ bs) g = gather_text bs g

-- The finish reason for the stop reason of a message.
pub data IsFinish : String → String → Type 0 where
  unsaid : IsFinish "" "stop"
  called : IsFinish "tool_use" "tool_calls"
  said : (reason : String) → reason ≢ "" → reason ≢ "tool_use" → IsFinish reason reason

-- By what is tested: whether there is a reason, and whether it is a tool's.
tested-IsFinish :
    (reason : String) (empty tool : Bool)
    → is_empty reason ≡ empty
    → (reason == "tool_use") ≡ tool
    → IsFinish reason (finish_of reason)
tested-IsFinish String.[] empty tool e h = unsaid
tested-IsFinish (String.◌∷◌ c s) empty true e h =
    subst (λ (r : String). IsFinish r (finish_of r))
      (sym ((eq_iff (String.◌∷◌ c s) "tool_use").0 h)) called
tested-IsFinish (String.◌∷◌ c s) empty false e h = rw h (
    said (String.◌∷◌ c s) (TextLemmas.cons-ne-nil c s) (λ k. absurd (
      let same : ((String.◌∷◌ c s) == "tool_use") ≡ true =
        (eq_iff (String.◌∷◌ c s) "tool_use").1 k in
      cc)))

finish_of-IsFinish : (reason : String) → IsFinish reason (finish_of reason)
finish_of-IsFinish reason =
    tested-IsFinish reason (is_empty reason) (reason == "tool_use") refl refl

module _ (F : Type 0) (model : String) (nanos seconds : ℤ) where
  -- The one choice of a response holds the text blocks of the message joined in order, a call for
  -- each tool use in order, and the finish reason: stop when the message has no stop reason,
  -- tool_calls when it is tool_use, and otherwise the stop reason itself.
  pub map_response_choices :
      (m : Message)
      → (finish : String) × IsFinish m.stop_reason finish
        × ((map_response {F = F} model (some m) nanos seconds).choices
            ≡ record {
              index = 0;
              message = record {
                role = "assistant";
                content = text_of m.content;
                name = "";
                tool_calls = calls_of m.content;
                tool_call_id = "";
              };
              finish_reason = finish;
            }
              ∷ [])
  unfolding map_response respond
  map_response_choices m = (
    finish_of m.stop_reason,
    finish_of-IsFinish m.stop_reason,
    rw
        (
          gather_text m.content nothing_gathered,
          gather_calls m.content nothing_gathered,
          TextLemmas.nil-append,
        )
        refl,
  )

  -- While the counts of a message are below 2^63 in sum, the prompt tokens of the response are the
  -- sum of input, cache creation and cache reads, and the total is these and the completion tokens:
  -- nothing wraps around.
  pub map_response_usage :
      (content : List Block) (stop_reason : String) (input output creation cached : ℕ)
      → input + creation + cached + output < 2 ^ 63
      → let r =
          map_response {F = F} model
            (some (record {
              content = content;
              stop_reason = stop_reason;
              input_tokens = pos input;
              output_tokens = pos output;
              cache_creation_input_tokens = pos creation;
              cache_read_input_tokens = pos cached;
            }))
            nanos
            seconds in
        (r.usage.prompt_tokens ≡ pos (input + creation + cached))
        × (r.usage.completion_tokens ≡ pos output)
        × (r.usage.total_tokens ≡ pos (input + creation + cached + output))
  unfolding map_response respond usage_of
  map_response_usage content stop_reason input output creation cached small = (
    rw (
      add64_of_small input creation (omega arith),
      add64_of_small (input + creation) cached (omega arith),
    ),
    refl,
    rw (
      add64_of_small input creation (omega arith),
      add64_of_small (input + creation) cached (omega arith),
      add64_of_small (input + creation + cached) output (omega arith),
    ),
  )
