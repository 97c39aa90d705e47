-- ===== src/Http/Laws/Access.antt =====
-- internal/adapters/http/handler.go: what is behind the API key.
use mathlib.Core.Path.{refl, subst}
use claude_oauth_proxy.Base.{
  ◌||◌, Option, List, ℕ, ◌≡◌, String, Bool, true, false, not, ◌&&◌, ◌==◌, none, some, eq_iff,
  eq_refl, get, Bool-cases, inl, inr, arith, is_blank, trim_space, if◌then◌else◌,
}
use claude_oauth_proxy.Http.CleanPath.{clean_path}
use claude_oauth_proxy.Http.{
  set_header, Request, header, error_body, Exchange, Services, HandlerConfig, write_json,
  payload_of, has_prefix, key_of, allows, require_api_key, with_cors, cors_headers,
  with_request_logging, with_request_id, mux, route, redirect, redirect_to, moved, started_exchange,
  serve,
}

-- The paths below /v1/, the list of models excepted.
abbrev pub is_guarded : String → Bool
is_guarded path = has_prefix path "/v1/" && not (path == "/v1/models")

apart : (p q : String) → has_prefix p "/v1/" ≡ true → has_prefix q "/v1/" ≡ false → (p == q) ≡ false
apart p q h k = elim (Bool-cases (p == q)) [
  | inr differs ↦ differs
  | inl same ↦ absurd (
      let e : p ≡ q = (eq_iff p q).0 same in
      let h' : has_prefix q "/v1/" ≡ true =
        subst (λ (s : String). has_prefix s "/v1/" ≡ true) e h in
      cc)
]

-- The state once a request has its identifier.
abbrev pub identified_state : {S F C : Type 0} → Services S F C → Request → Exchange S F → S
identified_state sv r x =
    if is_blank (header "X-Request-ID" r) then (sv.generate_id x.state).1 else x.state

-- The status without the key: 301 where the path is not clean, and 401 where it is.
abbrev pub refusal : Request → ℕ
refusal r = if r.method == "CONNECT" || clean_path r.path == r.path then 401 else 301

clean_redirect :
    (r : Request)
    → is_guarded r.path ≡ true
    → (r.method == "CONNECT" || clean_path r.path == r.path) ≡ true
    → redirect_to r ≡ none
unfolding redirect_to has_prefix
clean_redirect r g h =
    let below = apart r.path "/v1" (ground arith) refl in
    elim (Bool-cases (r.method == "CONNECT")) [
      | inl direct ↦ rw (redirect_to, direct, below, eq_refl r.path) refl
      | inr other ↦
          let same : (clean_path r.path == r.path) ≡ true = rw other at h in
          rw (redirect_to, other, (eq_iff (clean_path r.path) r.path).0 same, below, eq_refl r.path)
            refl
    ]

unclean_redirect :
    (r : Request)
    → (r.method == "CONNECT" || clean_path r.path == r.path) ≡ false
    → (url : String) × (redirect_to r ≡ some url)
unfolding redirect_to
unclean_redirect r h =
    let other : (r.method == "CONNECT") ≡ false = ground arith in
    let differs : (clean_path r.path == r.path) ≡ false = ground arith in
    elim (Bool-cases (clean_path r.path == "/v1")) [
      | inl top ↦ ("/v1/", rw (redirect_to, other, top) refl)
      | inr deep ↦ (clean_path r.path, rw (redirect_to, other, deep, differs) refl)
    ]

module _ {S F C : Type 0} (sv : Services S F C) (cfg : HandlerConfig) (fuel : ℕ) where
  route_refuses :
      (r : Request) (x : Exchange S F)
      → is_guarded r.path ≡ true
      → (key_of r == cfg.api_key) ≡ false
      → route sv cfg fuel r x
        ≡ write_json 401
            (error_body (payload_of "invalid api key" "authentication_error" "INVALID_API_KEY"))
            x
  unfolding route require_api_key has_prefix
  route_refuses r x g k = ground (
    arith,
    apart r.path "/health" (ground arith) refl,
    apart r.path "/healthz" (ground arith) refl,
    apart r.path "/livez" (ground arith) refl,
    apart r.path "/ready" (ground arith) refl,
    apart r.path "/readyz" (ground arith) refl,
  )

  -- What a refusal leaves.
  abbrev IsRefused : Exchange S F → Exchange S F → ℕ → Type 0
  IsRefused x y status = (y.state ≡ x.state) × (y.status ≡ some status)

  moved-IsRefused :
      (url : String) (given : Option (List String)) (r : Request) (x : Exchange S F)
      → x.status ≡ none
      → IsRefused x (moved url given r x) 301
  moved-IsRefused url none r x fresh = (ground arith, ground arith)
  moved-IsRefused url (some type) r x fresh = (ground arith, ground arith)

  mux-IsRefused :
      (r : Request) (x : Exchange S F)
      → is_guarded r.path ≡ true
      → (key_of r == cfg.api_key) ≡ false
      → x.status ≡ none
      → IsRefused x (mux sv cfg fuel r x) (refusal r)
  unfolding mux redirect_to redirect
  mux-IsRefused r x g k fresh =
      elim (Bool-cases (r.method == "CONNECT" || clean_path r.path == r.path)) [
        | inl cleaned ↦
            rw (mux, clean_redirect r g cleaned, cleaned, route_refuses r x g k)
              (ground arith, ground arith)
        | inr unclean ↦
            let (url, to) = unclean_redirect r unclean in
            rw (mux, to, unclean)
              (moved-IsRefused url (get "Content-Type" x.headers) r (set_header "Location" url x)
                fresh)
      ]

  logged-IsRefused :
      (r : Request) (x : Exchange S F)
      → is_guarded r.path ≡ true
      → (key_of r == cfg.api_key) ≡ false
      → x.status ≡ none
      → IsRefused x (with_request_logging sv (mux sv cfg fuel) r x) (refusal r)
  unfolding with_request_logging
  logged-IsRefused r x g k fresh =
      let (same, answered) = mux-IsRefused r (started_exchange r x) g k fresh in
      (ground arith, ground arith)

  allowed-IsRefused :
      (r : Request) (x : Exchange S F)
      → is_guarded r.path ≡ true
      → (key_of r == cfg.api_key) ≡ false
      → x.status ≡ none
      → IsRefused x
          (with_cors cfg.cors_origins (with_request_logging sv (mux sv cfg fuel)) r x)
          (if allows cfg.cors_origins r && r.method == "OPTIONS" then 204 else refusal r)
  unfolding with_cors
  allowed-IsRefused r x g k fresh =
      let plain = logged-IsRefused r x g k fresh in
      let marked = logged-IsRefused r (cors_headers r x) g k fresh in (ground arith, ground arith)

  -- Without the API key, a request for any path below /v1/ but the list of models reaches neither
  -- service: the state changes by the making of a request identifier at most, and the answer is
  -- 401, or 301 where the path is not clean, or 204 for the preflight request of an allowed origin.
  pub serve_unauthorized :
      (r : Request) (x : Exchange S F)
      → is_guarded r.path ≡ true
      → (key_of r == cfg.api_key) ≡ false
      → x.status ≡ none
      → ((serve sv cfg fuel r x).state ≡ identified_state sv r x)
        × ((serve sv cfg fuel r x).status
            ≡ some (if allows cfg.cors_origins r && r.method == "OPTIONS" then 204 else refusal r))
  unfolding serve with_request_id
  serve_unauthorized r x g k fresh = elim (Bool-cases (is_blank (header "X-Request-ID" r))) [
    | inl blank ↦ rw blank (
        let id = (sv.generate_id x.state).0 in
        allowed-IsRefused (record r { request_id = id })
          (set_header "X-Request-ID" id (record x { state = (sv.generate_id x.state).1 })) g k
          fresh)
    | inr named ↦ rw named (
        let id = trim_space (header "X-Request-ID" r) in
        allowed-IsRefused (record r { request_id = id }) (set_header "X-Request-ID" id x) g k fresh)
  ]
