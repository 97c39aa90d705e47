-- ===== src/Tokens/Fallback/Laws.antt =====
-- internal/tokens/store.go: what `FallbackStore` guarantees, over any stores and over two files.
use claude_oauth_proxy.Base.{arith, ◌≡◌, ◌≢◌, String, false, none, some, get}
use claude_oauth_proxy.Core.{Result, ok, err, panic}
use claude_oauth_proxy.Tokens.Types.{TokenSet, missing}
use claude_oauth_proxy.Tokens.Codec.{TimeFormat}
use claude_oauth_proxy.Tokens.Contract.{Store, StoreLaws, IoError, not_exist}
use claude_oauth_proxy.Tokens.FileStore.{Disk, Faults, tmp_path, load, file_store}
use claude_oauth_proxy.Tokens.FileStore.Laws.{load-delete, delete_frame, save_frame}
use claude_oauth_proxy.Tokens.Fallback.{or_seed, fallback_store}

or_seed-missing :
    (r s : Result IoError TokenSet) (t : TokenSet)
    → (r ≡ ok t → missing t ≡ false)
    → (s ≡ ok t → missing t ≡ false)
    → or_seed r s ≡ ok t
    → missing t ≡ false
unfolding or_seed
or_seed-missing (ok u) s t h k e = h e
or_seed-missing (err x) s t h k e = k e
or_seed-missing panic s t h k e = cc

-- Over two stores that keep the contract of a store, the fallback store keeps it: what was saved
-- with an access token is loaded, and nothing without an access token is.
pub fallback_store-StoreLaws :
    {W : Type 0} (primary seed : Store W)
    → StoreLaws primary
    → StoreLaws seed
    → StoreLaws (fallback_store primary seed)
unfolding fallback_store
fallback_store-StoreLaws primary seed p s = record {
  load-save = λ t w m e. rw (p.load-save t w m e, or_seed);
  load-missing = λ t w e.
      or_seed-missing (primary.load w) (seed.load w) t (p.load-missing t w) (s.load-missing t w) e;
}

module _ (tf : TimeFormat) (faults : Faults) where
  abbrev pub over_files : String → String → Store Disk
  over_files path seed =
      fallback_store (file_store tf faults (some path)) (file_store tf faults (some seed))

  load_of_get :
      (path : String) (d d' : Disk)
      → get path d ≡ get path d'
      → load tf faults (some path) d ≡ load tf faults (some path) d'
  unfolding load
  load_of_get path d d' e = ground arith

  -- Over two files, after a successful Delete of the fallback store what it loads is what the seed
  -- file gave before, so a seeded session outlives a logout; where the token file can be read and
  -- removing a file that is there does not say that it does not exist.
  pub load-delete_seeded :
      (path seed : String) (disk : Disk)
      → faults.read path ≡ none
      → faults.remove path ≢ some not_exist
      → seed ≢ path
      → ((over_files path seed).delete disk).0 ≡ ok tt
      → (over_files path seed).load ((over_files path seed).delete disk).1
        ≡ load tf faults (some seed) disk
  unfolding fallback_store file_store
  load-delete_seeded path seed disk r n ne d =
      rw (load-delete tf faults path disk r d n, or_seed)
        (load_of_get seed _ _ (delete_frame tf faults path seed disk ne))

  -- Saving through the fallback store leaves what the seed file loads as it was, where the seed
  -- file is neither the token file nor its temporary file.
  pub save_keeps_seed :
      (path seed : String) (t : TokenSet) (disk : Disk)
      → seed ≢ path
      → seed ≢ tmp_path path
      → load tf faults (some seed) ((over_files path seed).save t disk).1
        ≡ load tf faults (some seed) disk
  unfolding fallback_store file_store
  save_keeps_seed path seed t disk n m =
      load_of_get seed _ _ (save_frame tf faults path seed t disk n m)
