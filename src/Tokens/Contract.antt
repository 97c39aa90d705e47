-- ===== src/Tokens/Contract.antt =====
-- internal/tokens/store.go: the `Store` interface, and what its clients may rely on.
use claude_oauth_proxy.Base.{◌≡◌, String, Bool, true, false}
use claude_oauth_proxy.Core.{Result, ok, Action}
use claude_oauth_proxy.Tokens.Types.{TokenSet, missing}

-- A Go error of the file system; `not_exist` is what `errors.Is(err, os.ErrNotExist)` finds.
pub data IoError : Type 0 where
  not_exist : IoError
  invalid : IoError
  other : String → IoError

abbrev pub is_not_exist : IoError → Bool
is_not_exist not_exist = true
is_not_exist _ = false

-- The interface over the state `W` that a store keeps its tokens in. Loading changes nothing.
pub record Store (W : Type 0) : Type 0 where
  pub load : W → Result IoError TokenSet
  pub save : TokenSet → Action W IoError (Unit {0})
  pub delete : Action W IoError (Unit {0})
  pub path : String

-- The contract: what was saved is loaded, and a token set without an access token is never loaded.
pub record StoreLaws {W : Type 0} (store : Store W) : Type 0 where
  pub load-save :
      (t : TokenSet) (w : W)
      → missing t ≡ false
      → (store.save t w).0 ≡ ok tt
      → store.load (store.save t w).1 ≡ ok t
  pub load-missing : (t : TokenSet) (w : W) → store.load w ≡ ok t → missing t ≡ false
