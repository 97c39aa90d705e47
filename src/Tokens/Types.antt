-- ===== src/Tokens/Types.antt =====
-- internal/tokens/store.go: the token set and its expiry.
use claude_oauth_proxy.Base.{
  ℤ, pos, ◌-ℤ◌, ◌*ℤ◌, add64, ltb_ℤ, nat_eq, String, Bool, true, false, not, List, [], is_empty,
  if◌then◌else◌,
}

-- time.Time and time.Duration, in nanoseconds.
abbrev pub Time : Type 0
Time = ℤ

abbrev pub Duration : Type 0
Duration = ℤ

abbrev pub second : ℤ
second = pos 1000000000

abbrev pub is_zero : ℤ → Bool
is_zero (pos n) = nat_eq n 0
is_zero _ = false

-- time.Unix(sec, 0); its seconds are counted from year 1 in an int64.
unfoldable pub unix : ℤ → Time
unfolding add64 ◌*ℤ◌
unix sec = add64 sec (pos 62135596800) *ℤ second

pub record TokenSet : Type 0 where
  pub access_token : String
  pub refresh_token : String
  pub token_type : String
  pub scope : String
  pub expires_at : Time

abbrev pub token_zero : TokenSet
token_zero = record {
  access_token = "";
  refresh_token = "";
  token_type = "";
  scope = "";
  expires_at = pos 0;
}

unfoldable pub missing : TokenSet → Bool
missing t = is_empty t.access_token

-- The clock is read once, as `now`.
unfoldable pub expired : Time → Duration → TokenSet → Bool
unfolding ◌-ℤ◌
expired now skew t = if is_zero t.expires_at then true else not (ltb_ℤ now (t.expires_at -ℤ skew))

-- The Claude CLI's format.
pub record ClaudeOauth : Type 0 where
  pub access_token : String
  pub refresh_token : String
  pub expires_at : ℤ
  pub scopes : List String

abbrev pub oauth_zero : ClaudeOauth
oauth_zero = record { access_token = ""; refresh_token = ""; expires_at = pos 0; scopes = [] }
