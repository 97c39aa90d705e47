-- ===== src/Auth/Provider/Renewal.antt =====
-- internal/auth/service.go: `AccessToken` over `claudeOAuthProvider`.
use claude_oauth_proxy.Base.{
  ℕ, ◌≡◌, ◌⊎◌, inl, inr, refl, ap, sym, ◌∙◌, subst, Bool, Bool-cases, true, false, Option, none,
  some, String, is_blank, arith, ◌<◌,
}
use claude_oauth_proxy.Core.{Error, Result, ok, err, panic}
use claude_oauth_proxy.Json.{Json, object, string, member, end}
use claude_oauth_proxy.Tokens.{Time, TokenSet}
use claude_oauth_proxy.Auth.Types.{Service, OauthProvider, AccessTokenOutput}
use claude_oauth_proxy.Auth.Operations.{access_token}
use claude_oauth_proxy.Auth.Operations.Laws.{IsFresh, IsRenewal, access_token_outcome}
use claude_oauth_proxy.Auth.Provider.{
  ProviderConfig, HttpClient, Response, Body, broken, read, Reply, decode_reply, accept,
  accept_decoded, accept_body, receive, post_from, post_token, refresh_token, claude_oauth_provider,
}

-- What the token endpoint is asked with for new tokens.
abbrev pub grant : ProviderConfig → String → Json
grant cfg token = object (
    member "client_id" (string cfg.client_id)
      (member "grant_type" (string "refresh_token") (member "refresh_token" (string token) end)))

-- A response that grants tokens: below 400, of a JSON document that is a reply without an error.
pub record IsGranting (response : Response) (reply : Reply) : Type 0 where
  pub text : String
  pub document : Json
  pub whole : response.body ≡ read text (some document)
  pub decoded : decode_reply document ≡ some reply
  pub accepted : response.status_code < 400
  pub no_error : reply.error ≡ ""

-- The tokens of a reply, with the refresh token before it where it has none.
pub record IsTaken (old : String) (reply : Reply) (kept : TokenSet) : Type 0 where
  pub token : kept.access_token ≡ reply.access_token
  pub renewed : is_blank reply.refresh_token ≡ false → kept.refresh_token ≡ reply.refresh_token
  pub retained : is_blank reply.refresh_token ≡ true → kept.refresh_token ≡ old

accept-IsTaken :
    (code : ℕ) (text old : String) (at : Time) (r : Reply) (t : TokenSet)
    → accept code text old at r ≡ ok t
    → (code < 400) × (r.error ≡ "") × IsTaken old r t
unfolding accept
accept-IsTaken code text old at r t h = (
  ground arith,
  ground arith,
  record { token = ground arith; renewed = λ k. ground arith; retained = λ k. ground arith },
)

abbrev Grants : (old : String) → Response → TokenSet → Type 0
Grants old response t = (r : Reply) × IsGranting response r × IsTaken old r t

decoded-Grants :
    (response : Response) (text old : String) (at : Time) (document : Json) (o : Option Reply)
    (t : TokenSet)
    → response.body ≡ read text (some document)
    → decode_reply document ≡ o
    → accept_decoded response.status_code text old at o ≡ ok t
    → Grants old response t
unfolding accept_decoded
decoded-Grants response text old at document none t b d h = cc
decoded-Grants response text old at document (some r) t b d h =
    let (accepted, no_error, taken) = accept-IsTaken response.status_code text old at r t h in
    (
      r,
      record {
        text = text;
        document = document;
        whole = b;
        decoded = d;
        accepted = accepted;
        no_error = no_error;
      },
      taken,
    )

body-Grants :
    (response : Response) (old : String) (at : Time) (body : Body) (t : TokenSet)
    → response.body ≡ body
    → accept_body response.status_code old at body ≡ ok t
    → Grants old response t
unfolding accept_body accept_decoded
body-Grants response old at (broken e) t b h = cc
body-Grants response old at (read text none) t b h = cc
body-Grants response old at (read text (some document)) t b h =
    decoded-Grants response text old at document (decode_reply document) t b refl h

module _ {W : Type 0} (client : HttpClient W) (cfg : ProviderConfig) (now : W → Time) where
  -- A request for new tokens that was sent, and answered with some.
  record IsAnswered (old : String) (w : W) (new : TokenSet) (between : W) : Type 0 where
    response : Response
    allowed : client.refused cfg.token_url ≡ none
    sent : client.post cfg.token_url (grant cfg old) w ≡ (ok response, between)
    granted : Grants old response new

  received-IsAnswered :
      (old : String) (w between : W) (new : TokenSet) (sent : Result String Response × W)
      → client.refused cfg.token_url ≡ none
      → client.post cfg.token_url (grant cfg old) w ≡ sent
      → receive client cfg now old sent ≡ (ok new, between)
      → IsAnswered old w new between
  unfolding receive
  received-IsAnswered old w between new (err e, v) a s h = cc
  received-IsAnswered old w between new (panic, v) a s h = cc
  received-IsAnswered old w between new (ok response, v) a s h = record {
    response = response;
    allowed = a;
    sent = s ∙ ap (λ (u : W). (ok response, u)) (ap (λ (q : Result Error TokenSet × W). q.1) h);
    granted =
        body-Grants response old (now v) response.body new refl
          (ap (λ (q : Result Error TokenSet × W). q.0) h);
  }

  posted-IsAnswered :
      (old : String) (w between : W) (new : TokenSet) (refused : Option String)
      → client.refused cfg.token_url ≡ refused
      → post_from client cfg now refused (grant cfg old) old w ≡ (ok new, between)
      → IsAnswered old w new between
  unfolding post_from
  posted-IsAnswered old w between new none a h =
      received-IsAnswered old w between new (client.post cfg.token_url (grant cfg old) w) a refl h
  posted-IsAnswered old w between new (some e) a h = cc

  refresh_token-IsAnswered :
      (old : String) (w between : W) (new : TokenSet)
      → refresh_token client cfg now old w ≡ (ok new, between)
      → IsAnswered old w new between
  unfolding refresh_token post_token
  refresh_token-IsAnswered old w between new h =
      posted-IsAnswered old w between new (client.refused cfg.token_url) refl h

module _ {W : Type 0} (client : HttpClient W) (cfg : ProviderConfig) (now : W → Time)
    (s : Service W) where
  -- How AccessToken renews a session: the endpoint was asked with its refresh token and granted the
  -- tokens of a reply; these were saved, and the access token is the one returned.
  pub record IsRenewedBy (t : TokenSet) (w : W) (out : AccessTokenOutput) (w' : W) : Type 0 where
    pub response : Response
    pub reply : Reply
    pub kept : TokenSet
    pub between : W
    pub allowed : client.refused cfg.token_url ≡ none
    pub sent : client.post cfg.token_url (grant cfg t.refresh_token) w ≡ (ok response, between)
    pub granting : IsGranting response reply
    pub taken : IsTaken t.refresh_token reply kept
    pub saved : s.store.save kept between ≡ (ok tt, w')
    pub given : out ≡ record { token = reply.access_token; expires_at = kept.expires_at }

  IsRenewal-IsTaken :
      {old new kept : TokenSet} {reply : Reply}
      → IsRenewal s old new kept
      → IsTaken old.refresh_token reply new
      → IsTaken old.refresh_token reply kept
  IsRenewal-IsTaken {new = new} r k = record {
    token = ap (λ (q : TokenSet). q.access_token) r.same ∙ k.token;
    renewed = λ h. r.renewed (ap (λ (u : String). is_blank u) (k.renewed h) ∙ h) ∙ k.renewed h;
    retained = λ h. elim (Bool-cases (is_blank new.refresh_token)) [
      | inl blank ↦ r.retained blank
      | inr given ↦ r.renewed given ∙ k.retained h
    ];
  }

  -- Over the OAuth provider, with a stored session: AccessToken succeeds only with the stored
  -- token, which is fresh, when it is not made to refresh, or after the token endpoint was asked
  -- with the stored refresh token and answered, with a status below 400, a JSON document that is a
  -- reply without an error. Then what was saved has the access token of the reply, which is
  -- returned, and the refresh token of the reply, or the stored one where that is blank.
  pub access_token_renewed :
      (force : Bool) (w w' : W) (t : TokenSet) (out : AccessTokenOutput)
      → s.provider ≡ some (claude_oauth_provider client cfg now)
      → s.store.load w ≡ ok t
      → access_token s force w ≡ (ok out, w')
      → ((force ≡ false) × IsFresh s w t × (out.token ≡ t.access_token) × (w' ≡ w))
        ⊎ IsRenewedBy t w out w'
  unfolding claude_oauth_provider
  access_token_renewed force w w' t out p l h = elim (access_token_outcome s force w w' t out l h) [
    | inl (unforced, fresh, given, same) ↦
        inl (unforced, fresh, ap (λ (o : AccessTokenOutput). o.token) given, same)
    | inr (present, r) ↦
        let asked : refresh_token client cfg now t.refresh_token w ≡ (ok r.new, r.between) =
          subst (λ (q : OauthProvider W). q.refresh_token t.refresh_token w ≡ (ok r.new, r.between))
            (ap (λ (o : Option (OauthProvider W)). elim o [ none ↦ r.provider | some q ↦ q ])
              (sym r.present ∙ p))
            r.replied in
        let a = refresh_token-IsAnswered client cfg now t.refresh_token w r.between r.new asked in
        let (reply, granting, taken) = a.granted in
        inr (record {
          response = a.response;
          reply = reply;
          kept = r.kept;
          between = r.between;
          allowed = a.allowed;
          sent = a.sent;
          granting = granting;
          taken = IsRenewal-IsTaken r.renewal taken;
          saved = r.saved;
          given =
              r.given
              ∙ ap (λ (u : String). record { token = u; expires_at = r.kept.expires_at })
                  (IsRenewal-IsTaken r.renewal taken).token;
        })
  ]
