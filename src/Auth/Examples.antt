-- ===== src/Auth/Examples.antt =====
-- internal/auth/service.go: the service over a concrete disk, provider and clock.
pub mod Wire
pub mod Renewal
use mathlib.Core.Path.{refl, sym, subst, ◌∙◌}
use claude_oauth_proxy.Base.{
  ◌⊎◌, remove, put, get, pos, ◌≡◌, true, false, Option, none, some, [], is_blank,
}
use claude_oauth_proxy.Core.{Error, Result, ok, err}
use claude_oauth_proxy.Tokens.{
  decode_token_set, encode_token_set, TokenSet, missing, expired, Store, StoreLaws, IoError,
}
use claude_oauth_proxy.Tokens.FileStore.{Disk, load, save, file_store}
use claude_oauth_proxy.Tokens.FileStore.Laws.{file_store-StoreLaws}
use claude_oauth_proxy.Tokens.Examples.{
  read_time, write_time, two_instants, no_faults, session, new_year, saved_disk,
}
use claude_oauth_proxy.Auth.{
  Service, OauthProvider, AccessTokenOutput, StatusOutput, CompleteLoginInput,
}
use claude_oauth_proxy.Auth.Operations.{refresh, access_token, status, complete_login, token_output}
use claude_oauth_proxy.Auth.Operations.Laws.{
  IsFresh, IsRefreshed, no_session, access_token_outcome, access_token_persisted, access_token_once,
  access_token_refused,
}
use claude_oauth_proxy.Auth.Operations.Login.{
  status-access_token, IsCompleted, complete_login_outcome,
}
use claude_oauth_proxy.Auth.Operations.Lockout.{access_token_locked_out}

abbrev pub file : Store Disk
file = file_store two_instants no_faults (some "tokens.json")

-- The provider's next session, with no refresh token of its own.
abbrev pub next_session : TokenSet
next_session = record session { access_token = "at2"; refresh_token = "" }

abbrev pub answering : TokenSet → OauthProvider Disk
answering t = record {
  authorization_url = λ i. ok "https://claude.ai/oauth/authorize";
  exchange_code = λ i w. (ok t, w);
  refresh_token = λ r w. (ok t, w);
}

-- An hour before the session expires, with five minutes of skew.
abbrev pub service_with : Option (OauthProvider Disk) → Service Disk
service_with p = record {
  store = file;
  provider = p;
  opener = none;
  now = λ w. pos 63902905200000000000;
  random = λ n w. (ok [], w);
  cfg = record {
    redirect_uri = "http://localhost:54545/callback";
    refresh_skew = pos 300000000000;
  };
}

abbrev pub service : Service Disk
service = service_with (some (answering next_session))

abbrev refreshed : Result Error AccessTokenOutput × Disk
refreshed = access_token service true saved_disk

abbrev given : AccessTokenOutput
given = record { token = "at2"; expires_at = new_year }

saved : service.store.load saved_disk ≡ ok session
unfolding file_store load save missing get put remove encode_token_set decode_token_set write_time
    read_time
saved = refl

renewed : access_token service true saved_disk ≡ (ok given, refreshed.1)
unfolding access_token refresh file_store load save missing get put remove encode_token_set
    decode_token_set write_time read_time is_blank
renewed = refl

pub file-StoreLaws : StoreLaws file
file-StoreLaws = file_store-StoreLaws two_instants no_faults "tokens.json" refl

has_token :
    (p : OauthProvider Disk) (v : Disk) (new : TokenSet)
    → service.provider ≡ some p
    → (p.refresh_token session.refresh_token v).0 ≡ ok new
    → missing new ≡ false
unfolding missing
has_token p v new e h =
    let same : p ≡ answering next_session = cc in
    let told : Path (Result Error TokenSet) (ok next_session) (ok new) =
      subst (λ (q : OauthProvider Disk). (q.refresh_token "rt" v).0 ≡ ok new) same h in
    let kept : next_session ≡ new = cc in subst (λ (t : TokenSet). missing t ≡ false) kept refl

access_token_outcome_example :
    ((true ≡ false)
      × IsFresh service saved_disk session
      × (given ≡ token_output service session)
      × (refreshed.1 ≡ saved_disk))
    ⊎ ((is_blank session.refresh_token ≡ false)
        × IsRefreshed service session saved_disk given refreshed.1)
access_token_outcome_example =
    access_token_outcome service true saved_disk refreshed.1 session given saved renewed

access_token_persisted_example :
    (kept : TokenSet) × (service.store.load refreshed.1 ≡ ok kept)
    × (given ≡ token_output service kept)
    × ((kept ≡ session) ⊎ (is_blank kept.refresh_token ≡ false))
access_token_persisted_example =
    access_token_persisted service true saved_disk refreshed.1 session given file-StoreLaws
      has_token saved renewed

abbrev renewed_session : TokenSet
renewed_session = record session { access_token = "at2" }

loads : service.store.load refreshed.1 ≡ ok renewed_session
unfolding access_token refresh file_store load save missing get put remove encode_token_set
    decode_token_set write_time read_time is_blank
loads = refl

refreshed-IsFresh :
    (kept : TokenSet) → service.store.load refreshed.1 ≡ ok kept → IsFresh service refreshed.1 kept
unfolding expired
refreshed-IsFresh kept h =
    let told : Path (Result IoError TokenSet) (ok renewed_session) (ok kept) = sym loads ∙ h in
    let same : renewed_session ≡ kept = cc in
    subst (λ (t : TokenSet). IsFresh service refreshed.1 t) same refl

access_token_once_example : access_token service false refreshed.1 ≡ (ok given, refreshed.1)
access_token_once_example =
    access_token_once service true saved_disk refreshed.1 session given file-StoreLaws has_token
      refreshed-IsFresh saved renewed

abbrev typed : CompleteLoginInput
typed = record { auth_code = " code\n"; state = "st"; code_verifier = "ver"; redirect_uri = "" }

complete_login_outcome_example :
    IsCompleted service typed []
      (record { token_path = "tokens.json"; expires_at = new_year })
      (complete_login service typed []).1
unfolding complete_login file_store save encode_token_set write_time is_blank
complete_login_outcome_example =
    complete_login_outcome service typed [] (complete_login service typed []).1
      (record { token_path = "tokens.json"; expires_at = new_year }) refl

-- A provider whose reply has no access token.
abbrev careless : Service Disk
careless = service_with (some (answering (record session { access_token = "" })))

abbrev lost : Result Error AccessTokenOutput × Disk
lost = access_token careless true saved_disk

access_token_locked_out_example :
    (e : Error) × (access_token careless false lost.1 ≡ (err e, lost.1))
    × (e.code ≡ "TOKEN_LOAD_FAILED")
    × (e.status_code ≡ 500)
unfolding access_token refresh file_store load save missing get put remove encode_token_set
    decode_token_set write_time read_time is_blank
access_token_locked_out_example =
    access_token_locked_out two_instants no_faults "tokens.json" careless true false saved_disk
      lost.1 session (record { token = ""; expires_at = new_year }) refl refl saved refl refl
