-- ===== src/Http/Laws/Logged.antt =====
-- internal/adapters/http/handler.go: every answer is given once, and its status is the one logged.
use mathlib.Core.Path.{refl}
use claude_oauth_proxy.Base.{
  get, ℕ, pos, zero, suc, leb, ◌≡◌, ◌⊎◌, inl, inr, String, Bool, true, false, not, ◌==◌, Option,
  none, some, List, [], ◌∷◌, ◌++◌, arith, Option-cases, if◌then◌else◌,
}
use claude_oauth_proxy.Core.{Error, Result, ok, err, panic}
use claude_oauth_proxy.Auth.{StatusOutput}
use claude_oauth_proxy.Openai.{
  ChatCompletionRequest, ChatCompletionResponse, ModelsResponse, CostDetails,
}
use claude_oauth_proxy.Anthropic.Stream.{Pulled, got, eof, failed}
use claude_oauth_proxy.Http.{
  has_prefix, contains, started_exchange, finish_fields, Entry, Field, text, number, HandlerFunc,
  key_of, limit_of, write_header, Request, Exchange, Services, HandlerConfig, send_chunks,
  stream_headers, answer_stream, answer_request, answer_chat, answer_models, answer_ready,
  handle_health, handle_ready, handle_models, handle_chat_completions, handle_unsupported_endpoint,
  write_error, require_api_key, not_found, mux, route, route_or_move, redirect, redirect_to, moved,
  set_header, with_request_logging, with_cost, at, write, chunk_event,
}

-- A handler has panicked, or it has written one status, which the logging writer has captured.
abbrev pub IsAnswered : {S F : Type 0} → Exchange S F → Type 0
IsAnswered x = (x.crashed ≡ true) ⊎ (x.status ≡ some x.captured)

if_either :
    {S F : Type 0} (b : Bool) (x y : Exchange S F)
    → IsAnswered x
    → IsAnswered y
    → IsAnswered (if b then x else y)
if_either true x y p q = p
if_either false x y p q = q

module _ {S F C : Type 0} (sv : Services S F C) where
  ready_IsAnswered :
      (o : Result Error StatusOutput × S) (x : Exchange S F)
      → x.status ≡ none
      → IsAnswered (answer_ready sv o x)
  unfolding answer_ready write_error
  ready_IsAnswered (ok out, s) x h = inr (ground arith)
  ready_IsAnswered (err e, s) x h = inr (ground arith)
  ready_IsAnswered (panic, s) x h = inl refl

  models_IsAnswered :
      (o : Result Error ModelsResponse × S) (x : Exchange S F)
      → x.status ≡ none
      → IsAnswered (answer_models sv o x)
  unfolding answer_models write_error
  models_IsAnswered (ok out, s) x h = inr (ground arith)
  models_IsAnswered (err e, s) x h = inr (ground arith)
  models_IsAnswered (panic, s) x h = inl refl

  cost_status :
      (o : Option (CostDetails F)) (x : Exchange S F)
      → x.status ≡ none
      → (write_header 200 (with_cost sv o x)).status ≡ some 200
  cost_status none x h = ground arith
  cost_status (some c) x h = ground arith

  chat_IsAnswered :
      (o : Result Error (ChatCompletionResponse F) × S) (x : Exchange S F)
      → x.status ≡ none
      → IsAnswered (answer_chat sv o x)
  unfolding answer_chat write_error
  chat_IsAnswered (ok out, s) x h = inr (cost_status out.usage.cost (at s x) h)
  chat_IsAnswered (err e, s) x h = inr (ground arith)
  chat_IsAnswered (panic, s) x h = inl refl

  -- One status, which is the one captured.
  abbrev Agrees : Exchange S F → Type 0
  Agrees x = x.status ≡ some x.captured

  send_once-Agrees :
      (fuel : ℕ) (c : C) (x : Exchange S F) (p : Pulled F) (s : S)
      → sv.next c x.state ≡ (p, s)
      → Agrees x
      → ((y : Exchange S F) → Agrees y → Agrees (send_chunks sv fuel c y))
      → Agrees (send_chunks sv (suc fuel) c x)
  unfolding send_chunks
  send_once-Agrees fuel c x eof s n h ih = rw (n, send_chunks) h
  send_once-Agrees fuel c x (failed e) s n h ih = rw (n, send_chunks) h
  send_once-Agrees fuel c x (got k) s n h ih = elim (Option-cases (sv.marshal k)) [
    | inl fine ↦
        rw (n, send_chunks, fine) (ih (write (chunk_event k) (at (sv.next c x.state).1 x)) h)
    | inr (e, bad) ↦ rw (n, send_chunks, bad) h
  ]

  send_chunks-Agrees :
      (fuel : ℕ) (c : C) (x : Exchange S F) → Agrees x → Agrees (send_chunks sv fuel c x)
  unfolding send_chunks
  send_chunks-Agrees zero c x h = h
  send_chunks-Agrees (suc fuel) c x h =
      send_once-Agrees fuel c x (sv.next c x.state).0 (sv.next c x.state).1 refl h
        (send_chunks-Agrees fuel c)

  stream_IsAnswered :
      (fuel : ℕ) (o : Result Error C × S) (x : Exchange S F)
      → x.status ≡ none
      → IsAnswered (answer_stream sv fuel o x)
  unfolding answer_stream write_error
  stream_IsAnswered fuel (ok c, s) x h =
      inr (send_chunks-Agrees fuel c (stream_headers sv (at s x)) (ground arith))
  stream_IsAnswered fuel (err e, s) x h = inr (ground arith)
  stream_IsAnswered fuel (panic, s) x h = inl refl

  request_IsAnswered :
      (fuel : ℕ) (o : Result String (ChatCompletionRequest F)) (x : Exchange S F)
      → x.status ≡ none
      → IsAnswered (answer_request sv fuel o x)
  unfolding answer_request write_error
  request_IsAnswered fuel (err e) x h = inr (ground arith)
  request_IsAnswered fuel panic x h = inl refl
  request_IsAnswered fuel (ok q) x h =
      if_either q.stream _ _
        (stream_IsAnswered fuel (sv.create_chat_completion_stream q x.state) x h)
        (chat_IsAnswered (sv.create_chat_completion q x.state) x h)

  guarded_IsAnswered :
      (key : String) (next : HandlerFunc S F) (r : Request) (x : Exchange S F)
      → x.status ≡ none
      → IsAnswered (next r x)
      → IsAnswered (require_api_key key next r x)
  unfolding require_api_key
  guarded_IsAnswered key next r x h n = if_either (not (key_of r == key)) _ _ (inr (ground arith)) n

  moved-IsAnswered :
      (url : String) (given : Option (List String)) (r : Request) (x : Exchange S F)
      → x.status ≡ none
      → IsAnswered (moved url given r x)
  moved-IsAnswered url none r x h = inr (ground arith)
  moved-IsAnswered url (some type) r x h = inr (ground arith)

  route-IsAnswered :
      (cfg : HandlerConfig) (fuel : ℕ) (r : Request) (x : Exchange S F)
      → x.status ≡ none
      → IsAnswered (route sv cfg fuel r x)
  unfolding route handle_health handle_ready handle_models handle_chat_completions
      handle_unsupported_endpoint not_found
  route-IsAnswered cfg fuel r x h =
      let chat = require_api_key cfg.api_key (handle_chat_completions sv fuel cfg) r x in
      let other = require_api_key cfg.api_key handle_unsupported_endpoint r x in
      let fifth = if has_prefix r.path "/v1/" then other else not_found r x in
      let fourth = if r.path == "/v1/chat/completions" then chat else fifth in
      let third = if r.path == "/v1/models" then handle_models sv r x else fourth in
      let second =
        if contains r.path ("/ready" ∷ "/readyz" ∷ []) then handle_ready sv r x else third in
      if_either (contains r.path ("/health" ∷ "/healthz" ∷ "/livez" ∷ [])) (handle_health r x)
        second (inr (ground arith))
        (if_either (contains r.path ("/ready" ∷ "/readyz" ∷ [])) (handle_ready sv r x) third
          (ready_IsAnswered (sv.status x.state) x h)
          (if_either (r.path == "/v1/models") (handle_models sv r x) fourth
            (models_IsAnswered (sv.list_models x.state) x h)
            (if_either (r.path == "/v1/chat/completions") chat fifth
              (guarded_IsAnswered cfg.api_key (handle_chat_completions sv fuel cfg) r x h
                (request_IsAnswered fuel (sv.decode (limit_of cfg.max_request_body) r.body) x h))
              (if_either (has_prefix r.path "/v1/") other (not_found r x)
                (guarded_IsAnswered cfg.api_key handle_unsupported_endpoint r x h
                  (inr (ground arith)))
                (inr (ground arith))))))

  either-IsAnswered :
      (cfg : HandlerConfig) (fuel : ℕ) (url : Option String) (r : Request) (x : Exchange S F)
      → x.status ≡ none
      → IsAnswered (route_or_move sv cfg fuel url r x)
  unfolding redirect
  either-IsAnswered cfg fuel none r x h = route-IsAnswered cfg fuel r x h
  either-IsAnswered cfg fuel (some url) r x h =
      moved-IsAnswered url (get "Content-Type" x.headers) r (set_header "Location" url x) h

  mux-IsAnswered :
      (cfg : HandlerConfig) (fuel : ℕ) (r : Request) (x : Exchange S F)
      → x.status ≡ none
      → IsAnswered (mux sv cfg fuel r x)
  unfolding mux
  mux-IsAnswered cfg fuel r x h = either-IsAnswered cfg fuel (redirect_to r) r x h

  -- A request that no handler panics on is answered with one status, and the last log entry is the
  -- one of the request, with that status, as an error from 400 on.
  pub with_request_logging-IsAnswered :
      (cfg : HandlerConfig) (fuel : ℕ) (r : Request) (x : Exchange S F)
      → x.status ≡ none
      → (mux sv cfg fuel r (started_exchange r x)).crashed ≡ false
      → (status : ℕ) × (earlier : List Entry) × (fields : List (String × Field))
        × ((with_request_logging sv (mux sv cfg fuel) r x).status ≡ some status)
        × ((with_request_logging sv (mux sv cfg fuel) r x).logs
            ≡ earlier
              ++ record {
                level = if leb 400 status then "error" else "info";
                event = "http.request.finish";
                fields =
                    ("method", text r.method)
                    ∷ ("path", text r.path)
                    ∷ ("status_code", number (pos status))
                    ∷ fields;
              }
                ∷ [])
  unfolding with_request_logging finish_fields
  with_request_logging-IsAnswered cfg fuel r x h alive =
      let y = mux sv cfg fuel r (started_exchange r x) in
      elim (mux-IsAnswered cfg fuel r (started_exchange r x) h) [
        | inl crashed ↦ absurd (ground arith)
        | inr same ↦ (
          y.captured,
          y.logs,
          ("duration_ms", number (sv.elapsed_ms (sv.now x.state) (sv.now y.state)))
              ∷ ("request_id", text r.request_id)
              ∷ [],
          rw alive same,
          rw alive refl,
        )
      ]
