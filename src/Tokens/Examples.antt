-- ===== src/Tokens/Examples.antt =====
-- internal/tokens/store.go: the stores on concrete disks.
use mathlib.Core.Path.{refl}
use claude_oauth_proxy.Base.{
  ◌≢◌, false, zero, suc, negsuc, eq_iff, negsuc, suc, pos, ◌≡◌, String, Option, none, some, [],
  ◌==◌, if◌then◌else◌, arith, nat_eq, get,
}
use claude_oauth_proxy.Core.{ok}
use claude_oauth_proxy.Tokens.Types.{Time, TokenSet, missing}
use claude_oauth_proxy.Tokens.Codec.{TimeFormat, encode_token_set}
use claude_oauth_proxy.Tokens.Contract.{StoreLaws, other}
use claude_oauth_proxy.Tokens.FileStore.{Disk, Faults, malformed, load, save, file_store}
use claude_oauth_proxy.Tokens.FileStore.Laws.{load-save, save_atomic, file_store-StoreLaws}
use claude_oauth_proxy.Tokens.Fallback.Laws.{over_files, fallback_store-StoreLaws}

pub apart : (s t : String) → (s == t) ≡ false → s ≢ t
apart s t h e = ground (arith, eq_iff s t)

-- A clock of two instants.
abbrev pub new_year : Time
new_year = pos 63902908800000000000

unfoldable pub write_time : Time → Option String
write_time (pos zero) = some "0001-01-01T00:00:00Z"
write_time (pos (suc n)) =
    if nat_eq n 63902908799999999999 then some "2026-01-01T00:00:00Z" else none
write_time (negsuc n) = none

unfoldable pub read_time : String → Option Time
read_time s =
    if s == "0001-01-01T00:00:00Z"
    then some (pos 0)
    else if s == "2026-01-01T00:00:00Z"
    then some new_year
    else none

pub read-write_time : (t : Time) {s : String} → write_time t ≡ some s → read_time s ≡ some t
unfolding write_time read_time
read-write_time (pos zero) {s} h = ground (arith, eq_iff s "0001-01-01T00:00:00Z")
read-write_time (pos (suc n)) {s} h = ground (
  arith,
  eq_iff s "2026-01-01T00:00:00Z",
  eq_iff s "0001-01-01T00:00:00Z",
  apart "0001-01-01T00:00:00Z" "2026-01-01T00:00:00Z" refl,
)
read-write_time (negsuc n) h = cc

abbrev pub two_instants : TimeFormat
two_instants = record { format = write_time; parse = read_time; parse-format = read-write_time }

abbrev pub no_faults : Faults
no_faults = record {
  read = λ p. none;
  mkdir = λ p. none;
  write = λ p. none;
  torn = λ p. none;
  rename = λ p. none;
  remove = λ p. none;
}

abbrev full_disk : Faults
full_disk = record no_faults {
  write = λ p. some (other "no space left on device");
  torn = λ p. some malformed;
}

abbrev pub session : TokenSet
session = record {
  access_token = "at";
  refresh_token = "rt";
  token_type = "Bearer";
  scope = "org";
  expires_at = new_year;
}

abbrev pub saved_disk : Disk
saved_disk = (save two_instants no_faults (some "tokens.json") session []).1

load-save_example :
    load two_instants no_faults
      (some "tokens.json")
      (save two_instants no_faults (some "tokens.json") session []).1
    ≡ ok session
unfolding missing save encode_token_set write_time
load-save_example = load-save two_instants no_faults "tokens.json" session [] refl refl refl

save_atomic_example :
    get "tokens.json" (save two_instants full_disk (some "tokens.json") session saved_disk).1
    ≡ get "tokens.json" saved_disk
unfolding save encode_token_set write_time
save_atomic_example = save_atomic two_instants full_disk "tokens.json" session saved_disk (λ e. cc)

fallback_store-StoreLaws_example :
    StoreLaws (over_files two_instants no_faults "tokens.json" "seed.json")
fallback_store-StoreLaws_example =
    fallback_store-StoreLaws (file_store two_instants no_faults (some "tokens.json"))
      (file_store two_instants no_faults (some "seed.json"))
      (file_store-StoreLaws two_instants no_faults "tokens.json" refl)
      (file_store-StoreLaws two_instants no_faults "seed.json" refl)

-- Both files hold the session.
abbrev seeded_disk : Disk
seeded_disk = (save two_instants no_faults (some "seed.json") session saved_disk).1
