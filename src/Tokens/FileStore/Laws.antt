-- ===== src/Tokens/FileStore/Laws.antt =====
-- internal/tokens/store.go: what `FileStore` guarantees.
use claude_oauth_proxy.Base.{
  true, ◌≡◌, ◌≢◌, String, false, Option, none, some, eq_iff, eq_refl, arith, append-ne_self,
  Option-cases, get, get-put, get-remove, put, inl, inr, remove,
}
use claude_oauth_proxy.Core.{ok, err}
use claude_oauth_proxy.Json.{Json}
use claude_oauth_proxy.Tokens.Types.{TokenSet, missing, ClaudeOauth}
use claude_oauth_proxy.Tokens.Codec.{
  TimeFormat, encode_token_set, decode-encode_token_set, decode_credentials-encode_token_set,
  decode_token_set, decode_credentials, to_token_set,
}
use claude_oauth_proxy.Tokens.Contract.{other, not_exist, StoreLaws}
use claude_oauth_proxy.Tokens.FileStore.{
  Disk, File, Faults, json, malformed, tmp_path, load, save, delete, file_store, parse_native,
  from_credentials, parse_file,
}

tmp-ne-path : (path : String) → tmp_path path ≢ path
tmp-ne-path path = append-ne_self path ".tmp" (omega arith)

module _ (tf : TimeFormat) (faults : Faults) where
  -- Once the temporary file is renamed, the token file holds the document.
  get_renamed :
      (path : String) (file : File) (disk : Disk)
      → get path (remove (tmp_path path) (put path file disk)) ≡ some file
  get_renamed path file disk = ground (
    arith,
    get-remove (tmp_path path) path (put path file disk),
    get-put path path file disk,
    eq_iff (tmp_path path) path,
    tmp-ne-path path,
    eq_refl path,
  )

  from_credentials-missing :
      (o : Option (Option ClaudeOauth)) (t : TokenSet)
      → from_credentials o ≡ ok t
      → missing t ≡ false
  unfolding load to_token_set
  from_credentials-missing (some (some c)) t h = ground arith
  from_credentials-missing _ t h = cc

  parse_native-missing :
      (j : Json) (o : Option TokenSet) (t : TokenSet) → parse_native j o ≡ ok t → missing t ≡ false
  unfolding load
  parse_native-missing j none t h = cc
  parse_native-missing j (some u) t h =
      ground (arith, from_credentials-missing (decode_credentials j) t)

  parse_file-missing :
      (o : Option File) (t : TokenSet) → parse_file tf faults o ≡ ok t → missing t ≡ false
  unfolding load
  parse_file-missing none t h = cc
  parse_file-missing (some malformed) t h = cc
  parse_file-missing (some (json j)) t h = parse_native-missing j (decode_token_set tf j) t h

  -- A token set that was loaded has an access token.
  pub load-missing :
      (path : String) (t : TokenSet) (disk : Disk)
      → load tf faults (some path) disk ≡ ok t
      → missing t ≡ false
  unfolding load
  load-missing path t disk h = elim (Option-cases (faults.read path)) [
    | inl fine ↦ parse_file-missing (get path disk) t (rw (fine, load) at h)
    | inr (e, refused) ↦ cc (rw (refused, load) at h)
  ]

  -- A token set with an access token that was saved successfully is loaded again unchanged, where
  -- the token file can be read.
  pub load-save :
      (path : String) (t : TokenSet) (disk : Disk)
      → faults.read path ≡ none
      → missing t ≡ false
      → (save tf faults (some path) t disk).0 ≡ ok tt
      → load tf faults (some path) (save tf faults (some path) t disk).1 ≡ ok t
  unfolding load save
  load-save path t disk r m e = elim (Option-cases (encode_token_set tf t)) [
    | inl bad ↦ ground arith
    | inr (j, good) ↦ ground (
      arith,
      decode-encode_token_set tf t j good,
      get_renamed path (json j) (put (tmp_path path) (json j) disk),
      get-put (tmp_path path) (tmp_path path) (json j) disk,
      eq_refl (tmp_path path),
    )
  ]

  -- A save that does not succeed, a torn write of the temporary file included, leaves the token
  -- file as it was.
  pub save_atomic :
      (path : String) (t : TokenSet) (disk : Disk)
      → (save tf faults (some path) t disk).0 ≢ ok tt
      → get path (save tf faults (some path) t disk).1 ≡ get path disk
  unfolding load save
  save_atomic path t disk e =
      grind (arith, get-put, get-remove, tmp-ne-path path, eq_iff (tmp_path path) path)

  -- A save, successful or not, touches no file but the token file and its temporary file.
  pub save_frame :
      (path q : String) (t : TokenSet) (disk : Disk)
      → q ≢ path
      → q ≢ tmp_path path
      → get q (save tf faults (some path) t disk).1 ≡ get q disk
  unfolding save
  save_frame path q t disk n m =
      grind (arith, get-put, get-remove, eq_iff (tmp_path path) q, eq_iff path q)

  -- After a successful Delete nothing can be loaded, where the token file can be read and the
  -- operating system does not say of a file that is there that it does not exist.
  pub load-delete :
      (path : String) (disk : Disk)
      → faults.read path ≡ none
      → (delete tf faults (some path) disk).0 ≡ ok tt
      → faults.remove path ≢ some not_exist
      → (load tf faults (some path) (delete tf faults (some path) disk).1 ≡ err not_exist)
  unfolding load delete
  load-delete path disk r d n = ground (arith, get-remove path path disk, eq_refl path)

  pub delete_frame :
      (path q : String) (disk : Disk)
      → q ≢ path
      → get q (delete tf faults (some path) disk).1 ≡ get q disk
  unfolding delete
  delete_frame path q disk n = ground (arith, eq_iff path q, get-remove path q disk)

  -- A file store whose token file can be read keeps the contract of a store: what was saved with an
  -- access token is loaded, and nothing without an access token is.
  pub file_store-StoreLaws :
      (path : String) → faults.read path ≡ none → StoreLaws (file_store tf faults (some path))
  unfolding file_store
  file_store-StoreLaws path r = record {
    load-save = λ t w m e. load-save path t w r m e;
    load-missing = λ t w h. load-missing path t w h;
  }

  -- A token set without an access token is saved all the same, and cannot be loaded again.
  pub load-save_missing :
      (path : String) (t : TokenSet) (disk : Disk)
      → faults.read path ≡ none
      → missing t ≡ true
      → (save tf faults (some path) t disk).0 ≡ ok tt
      → load tf faults (some path) (save tf faults (some path) t disk).1
        ≡ err (other "token file does not contain an access token")
  unfolding load save
  load-save_missing path t disk r m e = elim (Option-cases (encode_token_set tf t)) [
    | inl bad ↦ ground arith
    | inr (j, good) ↦ ground (
      arith,
      decode-encode_token_set tf t j good,
      decode_credentials-encode_token_set tf t j good,
      get_renamed path (json j) (put (tmp_path path) (json j) disk),
      get-put (tmp_path path) (tmp_path path) (json j) disk,
      eq_refl (tmp_path path),
    )
  ]
