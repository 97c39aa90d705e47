-- ===== src/Tokens/FileStore.antt =====
-- internal/tokens/store.go: `FileStore` on a disk of JSON files.
pub mod Laws
use Prim.Native.String
use claude_oauth_proxy.Base.{
  String, Bool, Option, none, some, Dict, get, put, remove, is_empty, if◌then◌else◌,
}
use claude_oauth_proxy.Core.{Result, ok, err, Action, fail, ◌>>=◌}
use claude_oauth_proxy.Json.{Json}
use claude_oauth_proxy.Tokens.Types.{TokenSet, missing, ClaudeOauth}
use claude_oauth_proxy.Tokens.Codec.{
  TimeFormat, decode_token_set, encode_token_set, decode_credentials, to_token_set,
}
use claude_oauth_proxy.Tokens.Contract.{Store, IoError, not_exist, invalid, other}

-- A file's bytes: a JSON document, or no document.
pub data File : Type 0 where
  json : Json → File
  malformed : File

abbrev pub Disk : Type 0
Disk = Dict File

-- What the operating system refuses, by path and with its error; `torn` is what a refused write
-- leaves behind.
pub record Faults : Type 0 where
  pub read : String → Option IoError
  pub mkdir : String → Option IoError
  pub write : String → Option IoError
  pub torn : String → Option File
  pub rename : String → Option IoError
  pub remove : String → Option IoError

abbrev pub set_file : String → Option File → Disk → Disk
set_file path none disk = remove path disk
set_file path (some file) disk = put path file disk

abbrev pub tmp_path : String → String
tmp_path path = String.◌++◌ path ".tmp"

-- The Claude CLI's format, tried when the native one gave no access token.
from_credentials : Option (Option ClaudeOauth) → Result IoError TokenSet
from_credentials (some (some c)) =
    if is_empty c.access_token
    then err (other "token file does not contain an access token")
    else ok (to_token_set c)
from_credentials _ = err (other "token file does not contain an access token")

parse_native : Json → Option TokenSet → Result IoError TokenSet
parse_native j none = err (other "cannot decode token set")
parse_native j (some t) = if missing t then from_credentials (decode_credentials j) else ok t

module _ (tf : TimeFormat) (faults : Faults) where
  parse_file : Option File → Result IoError TokenSet
  parse_file none = err not_exist
  parse_file (some malformed) = err (other "invalid JSON")
  parse_file (some (json j)) = parse_native j (decode_token_set tf j)

  -- `s.path` is passed; a nil receiver is `none`.
  unfoldable pub load : Option String → Disk → Result IoError TokenSet
  unfolding parse_file parse_native from_credentials missing
  load none disk = err invalid
  load (some path) disk = elim (faults.read path) [
    | some e ↦ err e
    | none ↦ parse_file (get path disk)
  ]

  -- os.WriteFile and os.Rename.
  write_file : String → File → Action Disk IoError (Unit {0})
  write_file path file disk = elim (faults.write path) [
    | some e ↦ (err e, set_file path (faults.torn path) disk)
    | none ↦ (ok tt, put path file disk)
  ]

  rename : String → String → Action Disk IoError (Unit {0})
  rename from to disk = elim (faults.rename to) [
    | some e ↦ (err e, disk)
    | none ↦ (ok tt, remove from (set_file to (get from disk) disk))
  ]

  make_dir : String → Action Disk IoError (Unit {0})
  make_dir path disk = elim (faults.mkdir path) [ some e ↦ (err e, disk) | none ↦ (ok tt, disk) ]

  marshal : TokenSet → Action Disk IoError Json
  marshal t disk = elim (encode_token_set tf t) [
    | none ↦ (err (other "year outside of range [0,9999]"), disk)
    | some j ↦ (ok j, disk)
  ]

  unfoldable pub save : Option String → TokenSet → Action Disk IoError (Unit {0})
  unfolding write_file rename make_dir marshal
  save none t = fail invalid
  save (some path) t = do
    made ← make_dir path
    doc ← marshal t
    written ← write_file (tmp_path path) (json doc)
    rename (tmp_path path) path

  remove_file : String → Option IoError → Option File → Action Disk IoError (Unit {0})
  remove_file path _ none disk = (ok tt, disk)
  remove_file path (some not_exist) (some _) disk = (ok tt, disk)
  remove_file path (some e) (some _) disk = (err e, disk)
  remove_file path none (some _) disk = (ok tt, remove path disk)

  -- os.Remove, whose "not exist" is no error.
  unfoldable pub delete : Option String → Action Disk IoError (Unit {0})
  unfolding remove_file
  delete none = fail invalid
  delete (some path) = λ disk. remove_file path (faults.remove path) (get path disk) disk

  abbrev pub path_of : Option String → String
  path_of none = ""
  path_of (some path) = path

  unfoldable pub file_store : Option String → Store Disk
  unfolding load save delete
  file_store s = record { load = load s; save = save s; delete = delete s; path = path_of s }
