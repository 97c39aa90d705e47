-- ===== src/Http/Middleware.antt =====
-- internal/adapters/http/handler.go: the routes, and what stands around them.
use claude_oauth_proxy.Base.{
  Option, none, some, get, ◌⧺◌, ℕ, ℤ, pos, String, code, Bool, true, false, not, ◌&&◌, ◌||◌, ◌==◌,
  List, [], ◌∷◌, nat_eq, leb, if◌then◌else◌, trim_space, is_empty, is_blank,
}
use claude_oauth_proxy.Http.CleanPath.{clean_path, html_escape}
use claude_oauth_proxy.Http.Types.{
  Request, header, text_body, error_body, Field, text, number, Exchange, HandlerFunc, Services,
  HandlerConfig, set_header, add_header, write_header, write, log, write_json,
}
use claude_oauth_proxy.Http.Handlers.{
  payload_of, handle_health, handle_ready, handle_models, handle_chat_completions,
  handle_unsupported_endpoint,
}

-- strings.HasPrefix and strings.TrimPrefix
unfoldable pub has_prefix : String → String → Bool
has_prefix s String.[] = true
has_prefix String.[] (String.◌∷◌ p ps) = false
has_prefix (String.◌∷◌ c s) (String.◌∷◌ p ps) = nat_eq (code c) (code p) && has_prefix s ps

abbrev drop_chars : String → String → String
drop_chars s String.[] = s
drop_chars String.[] (String.◌∷◌ p ps) = ""
drop_chars (String.◌∷◌ c s) (String.◌∷◌ p ps) = drop_chars s ps

abbrev pub trim_prefix : String → String → String
trim_prefix s prefix = if has_prefix s prefix then drop_chars s prefix else s

abbrev pub contains : String → List String → Bool
contains s [] = false
contains s (t ∷ ts) = s == t || contains s ts

-- What a request is asked for with: the X-API-Key header, or else the bearer token.
abbrev pub key_of : Request → String
key_of r =
    let key = trim_space (header "X-API-Key" r) in
    if is_empty key then trim_space (trim_prefix (header "Authorization" r) "Bearer ") else key

-- An origin that is not empty and that is allowed, or that is any when "*" is.
abbrev pub allows : List String → Request → Bool
allows origins r =
    not (is_empty (header "Origin" r))
    && (contains "*" origins || contains (header "Origin" r) origins)

-- Where the mux redirects to: "/v1" to the pattern below it, and a path that is not clean to its clean
-- form, but for CONNECT.
unfoldable pub redirect_to : Request → Option String
unfolding clean_path
redirect_to r =
    let path = if r.method == "CONNECT" then r.path else clean_path r.path in
    if path == "/v1" then some "/v1/" else if path == r.path then none else some path

module _ {S F : Type 0} where
  unfoldable pub require_api_key : String → HandlerFunc S F → HandlerFunc S F
  require_api_key api_key next r x =
      if not (key_of r == api_key)
      then write_json 401
          (error_body (payload_of "invalid api key" "authentication_error" "INVALID_API_KEY")) x
      else next r x

  -- The mux's answer where no pattern matches.
  unfoldable pub not_found : HandlerFunc S F
  not_found r x = write (text_body "404 page not found") (
      write_header 404 (
        set_header "X-Content-Type-Options" "nosniff"
          (set_header "Content-Type" "text/plain; charset=utf-8" x)))

  -- `http.RedirectHandler` with status 301.
  abbrev pub moved_body : String → HandlerFunc S F
  moved_body url r x =
      if r.method == "GET"
      then write (text_body ("<a href=\"" ⧺ html_escape url ⧺ "\">Moved Permanently</a>.\n\n")) x
      else x

  -- A content type that is there already is left, and nothing is written.
  abbrev pub moved : String → Option (List String) → HandlerFunc S F
  moved url (some given) r x = write_header 301 x
  moved url none r x = moved_body url r (
      write_header 301 (
        if r.method == "GET" || r.method == "HEAD"
        then set_header "Content-Type" "text/html; charset=utf-8" x
        else x))

  unfoldable pub redirect : String → HandlerFunc S F
  unfolding html_escape
  redirect url r x = moved url (get "Content-Type" x.headers) r (set_header "Location" url x)

  abbrev pub cors_headers : Request → Exchange S F → Exchange S F
  cors_headers r x = set_header "Access-Control-Max-Age" "86400" (
      set_header "Access-Control-Expose-Headers" "X-Request-ID, X-Request-Cost" (
        set_header "Access-Control-Allow-Headers"
          "Authorization, Content-Type, X-API-Key, X-Request-ID"
          (set_header "Access-Control-Allow-Methods" "GET, POST, OPTIONS" (
            set_header "Access-Control-Allow-Origin" (header "Origin" r)
              (add_header "Vary" "Origin" x)))))

  abbrev pub preflight : Exchange S F → Exchange S F
  preflight x = write_header 204 (
      add_header "Vary" "Access-Control-Request-Headers"
        (add_header "Vary" "Access-Control-Request-Method" x))

  unfoldable pub with_cors : List String → HandlerFunc S F → HandlerFunc S F
  with_cors origins next r x =
      if allows origins r
      then if r.method == "OPTIONS" then preflight (cors_headers r x) else next r (cors_headers r x)
      else next r x

  abbrev pub identified : String → HandlerFunc S F → HandlerFunc S F
  identified id next r x = next (record r { request_id = id }) (set_header "X-Request-ID" id x)

-- The log's first entry, and the capturing writer with its first status.
abbrev pub started_exchange : {S F : Type 0} → Request → Exchange S F → Exchange S F
started_exchange r x =
    record (log "info" "http.request.start"
      (("method", text r.method) ∷ ("path", text r.path) ∷ ("request_id", text r.request_id) ∷ [])
      x) { captured = 200 }

module _ {S F C : Type 0} (sv : Services S F C) where
  unfoldable pub finish_fields : Request → ℤ → Exchange S F → List (String × Field)
  finish_fields r started x =
      ("method", text r.method)
      ∷ ("path", text r.path)
      ∷ ("status_code", number (pos x.captured))
      ∷ ("duration_ms", number (sv.elapsed_ms started (sv.now x.state)))
      ∷ ("request_id", text r.request_id)
      ∷ []

  abbrev pub log_finish : Request → ℤ → Exchange S F → Exchange S F
  log_finish r started x =
      if x.crashed
      then x
      else log (if leb 400 x.captured then "error" else "info") "http.request.finish"
          (finish_fields r started x) x

  unfoldable pub with_request_logging : HandlerFunc S F → HandlerFunc S F
  unfolding finish_fields
  with_request_logging next r x = log_finish r (sv.now x.state) (next r (started_exchange r x))

  unfoldable pub with_request_id : HandlerFunc S F → HandlerFunc S F
  with_request_id next r x =
      if is_blank (header "X-Request-ID" r)
      then identified (sv.generate_id x.state).0 next r
          (record x { state = (sv.generate_id x.state).1 })
      else identified (trim_space (header "X-Request-ID" r)) next r x

module _ {S F C : Type 0} (sv : Services S F C) (cfg : HandlerConfig) (fuel : ℕ) where
  -- The patterns of `NewHandler`; "/v1/" stands for every path below it.
  unfoldable pub route : HandlerFunc S F
  unfolding has_prefix
  route r x =
      if contains r.path ("/health" ∷ "/healthz" ∷ "/livez" ∷ [])
      then handle_health r x
      else if contains r.path ("/ready" ∷ "/readyz" ∷ [])
      then handle_ready sv r x
      else if r.path == "/v1/models"
      then handle_models sv r x
      else if r.path == "/v1/chat/completions"
      then require_api_key cfg.api_key (handle_chat_completions sv fuel cfg) r x
      else if has_prefix r.path "/v1/"
      then require_api_key cfg.api_key handle_unsupported_endpoint r x
      else not_found r x

  abbrev pub route_or_move : Option String → HandlerFunc S F
  route_or_move none r x = route r x
  route_or_move (some url) r x = redirect url r x

  -- `ServeHTTP` of the mux.
  unfoldable pub mux : HandlerFunc S F
  unfolding route redirect redirect_to
  mux r x = route_or_move (redirect_to r) r x

  -- The handler of `NewHandler`.
  unfoldable pub serve : HandlerFunc S F
  unfolding with_request_id with_cors with_request_logging mux
  serve = with_request_id sv (with_cors cfg.cors_origins (with_request_logging sv mux))
