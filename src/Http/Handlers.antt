-- ===== src/Http/Handlers.antt =====
-- internal/adapters/http/handler.go: the handlers, and the loop that sends a stream.
use claude_oauth_proxy.Base.{
  ℕ, zero, suc, String, ◌⧺◌, true, not, ◌||◌, Option, none, some, [], ◌∷◌, nat_eq, if◌then◌else◌,
}
use claude_oauth_proxy.Core.{Error, new_error, error_text, Result, ok, err, panic}
use claude_oauth_proxy.Openai.{
  ChatCompletionRequest, ChatCompletionResponse, CostDetails, ModelsResponse, ErrorPayload,
}
use claude_oauth_proxy.Auth.{StatusOutput}
use claude_oauth_proxy.Anthropic.Stream.{got, eof, failed}
use claude_oauth_proxy.Http.Types.{
  status_body, models_body, completion_body, error_body, chunk_event, done_event, text, Exchange,
  HandlerFunc, Services, HandlerConfig, set_header, write_header, write, log, write_json, limit_of,
}

abbrev pub payload_of : String → String → String → ErrorPayload
payload_of message kind code = record { message = message; kind = kind; code = code }

abbrev pub status_or_500 : ℕ → ℕ
status_or_500 status = if nat_eq status 0 then 500 else status

module _ {S F : Type 0} where
  abbrev pub crash : S → Exchange S F → Exchange S F
  crash s x = record x { state = s; crashed = true }

  abbrev pub at : S → Exchange S F → Exchange S F
  at s x = record x { state = s }

  unfoldable pub write_error : Option Error → Exchange S F → Exchange S F
  write_error none x =
      write_json 500
        (error_body (payload_of "internal server error" "server_error" "INTERNAL_ERROR")) x
  write_error (some e) x =
      write_json (status_or_500 e.status_code)
        (error_body (payload_of (error_text (some e)) "proxy_error" e.code)) x

  unfoldable pub handle_health : HandlerFunc S F
  handle_health r x = write_json 200 (status_body "ok") x

  unfoldable pub handle_unsupported_endpoint : HandlerFunc S F
  handle_unsupported_endpoint r x =
      write_json 501
        (error_body (
          payload_of "this OpenAI-compatible endpoint is not implemented" "not_implemented_error"
            "ENDPOINT_NOT_IMPLEMENTED"))
        x

module _ {S F C : Type 0} (sv : Services S F C) where
  unfoldable pub answer_ready : Result Error StatusOutput × S → Exchange S F → Exchange S F
  unfolding write_error
  answer_ready (err e, s) x = write_error (some e) (at s x)
  answer_ready (panic, s) x = crash s x
  answer_ready (ok out, s) x =
      if not out.exists || out.is_expired
      then write_json 503 (status_body "not_ready") (at s x)
      else write_json 200 (status_body "ok") (at s x)

  unfoldable pub handle_ready : HandlerFunc S F
  unfolding answer_ready
  handle_ready r x = answer_ready (sv.status x.state) x

  unfoldable pub answer_models : Result Error ModelsResponse × S → Exchange S F → Exchange S F
  unfolding write_error
  answer_models (err e, s) x = write_error (some e) (at s x)
  answer_models (panic, s) x = crash s x
  answer_models (ok out, s) x = write_json 200 (models_body out) (at s x)

  unfoldable pub handle_models : HandlerFunc S F
  unfolding answer_models
  handle_models r x = answer_models (sv.list_models x.state) x

  -- The header with the request's cost, where there is one.
  abbrev pub with_cost : Option (CostDetails F) → Exchange S F → Exchange S F
  with_cost none x = x
  with_cost (some c) x =
      set_header "X-Request-Cost" (sv.cost_text c.total_cost ⧺ " " ⧺ c.currency) x

  unfoldable pub answer_chat :
      Result Error (ChatCompletionResponse F) × S → Exchange S F → Exchange S F
  unfolding write_error
  answer_chat (err e, s) x = write_error (some e) (at s x)
  answer_chat (panic, s) x = crash s x
  answer_chat (ok out, s) x =
      write_json 200 (completion_body out) (with_cost out.usage.cost (at s x))

  -- At most `fuel` rounds of the loop over the chunks.
  unfoldable pub send_chunks : ℕ → C → Exchange S F → Exchange S F
  send_chunks zero c x = x
  send_chunks (suc fuel) c x =
      let (pulled, s) = sv.next c x.state in
      elim pulled [
        | eof ↦ write done_event (at s x)
        | failed e ↦
            log "error" "stream.error" (("error", text (error_text (some e))) ∷ []) (at s x)
        | got chunk ↦ elim (sv.marshal chunk) [
          | some e ↦ log "error" "stream.marshal_error" (("error", text e) ∷ []) (at s x)
          | none ↦ send_chunks fuel c (write (chunk_event chunk) (at s x))
        ]
      ]

  abbrev pub stream_headers : Exchange S F → Exchange S F
  stream_headers x = write_header 200 (
      set_header "Connection" "keep-alive"
        (set_header "Cache-Control" "no-cache" (set_header "Content-Type" "text/event-stream" x)))

  -- The stream is closed when the handler returns.
  abbrev pub close_stream : C → Exchange S F → Exchange S F
  close_stream c x = at (sv.close c x.state) x

  -- The server's writer can flush.
  unfoldable pub answer_stream : ℕ → Result Error C × S → Exchange S F → Exchange S F
  unfolding write_error send_chunks
  answer_stream fuel (err e, s) x = write_error (some e) (at s x)
  answer_stream fuel (panic, s) x = crash s x
  answer_stream fuel (ok c, s) x = close_stream c (send_chunks fuel c (stream_headers (at s x)))

  unfoldable pub answer_request :
      ℕ → Result String (ChatCompletionRequest F) → Exchange S F → Exchange S F
  unfolding write_error answer_stream answer_chat
  answer_request fuel (err e) x =
      write_error (some (new_error "INVALID_JSON" 400 "decode request body" (some e))) x
  answer_request fuel panic x = crash x.state x
  answer_request fuel (ok q) x =
      if q.stream
      then answer_stream fuel (sv.create_chat_completion_stream q x.state) x
      else answer_chat (sv.create_chat_completion q x.state) x

  unfoldable pub handle_chat_completions : ℕ → HandlerConfig → HandlerFunc S F
  unfolding answer_request
  handle_chat_completions fuel cfg r x =
      answer_request fuel (sv.decode (limit_of cfg.max_request_body) r.body) x
