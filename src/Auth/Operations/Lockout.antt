-- ===== src/Auth/Operations/Lockout.antt =====
-- internal/auth/service.go with internal/tokens/store.go: a refresh whose reply has no access token.
use claude_oauth_proxy.Base.{
  subst, sym, inr, inl, ◌≡◌, Bool, true, false, some, none, String, is_empty, arith, ap,
}
use claude_oauth_proxy.Core.{Error, Result, ok, err}
use claude_oauth_proxy.Tokens.{Store, TokenSet, TimeFormat, missing, IoError, other}
use claude_oauth_proxy.Tokens.FileStore.{Disk, Faults, file_store}
use claude_oauth_proxy.Tokens.FileStore.Laws.{load-missing, load-save_missing}
use claude_oauth_proxy.Auth.Types.{Service, AccessTokenOutput}
use claude_oauth_proxy.Auth.Operations.{access_token}
use claude_oauth_proxy.Auth.Operations.Laws.{
  IsRefreshed, access_token_outcome, access_token_refused, unreadable,
}

abbrev no_token : IoError
no_token = other "token file does not contain an access token"

module _ (tf : TimeFormat) (faults : Faults) (path : String) (s : Service Disk) where
  kept-err :
      (kept : TokenSet) (v w' : Disk)
      → faults.read path ≡ none
      → missing kept ≡ true
      → (file_store tf faults (some path)).save kept v ≡ (ok tt, w')
      → (file_store tf faults (some path)).load w' ≡ err no_token
  unfolding file_store
  kept-err kept v w' r m e = rw (← ap (λ (q : Result IoError (Unit {0}) × Disk). q.1) e) (
      load-save_missing tf faults path kept v r m
        (ap (λ (q : Result IoError (Unit {0}) × Disk). q.0) e))

  stored-err :
      (w w' : Disk) (t : TokenSet) (out : AccessTokenOutput)
      → s.store ≡ file_store tf faults (some path)
      → faults.read path ≡ none
      → IsRefreshed s t w out w'
      → is_empty out.token ≡ true
      → s.store.load w' ≡ err no_token
  unfolding missing
  stored-err w w' t out st r done empty =
      subst (λ (q : Store Disk). q.load w' ≡ err no_token) (sym st)
        (kept-err done.kept done.between w' r (ground arith)
          (subst (λ (q : Store Disk). q.save done.kept done.between ≡ (ok tt, w')) st done.saved))

  loaded-missing :
      (w : Disk) (t : TokenSet)
      → s.store ≡ file_store tf faults (some path)
      → s.store.load w ≡ ok t
      → missing t ≡ false
  unfolding file_store
  loaded-missing w t st l =
      load-missing tf faults path t w (subst (λ (q : Store Disk). q.load w ≡ ok t) st l)

  -- Over the file store, with a token file that can be read: an AccessToken that loaded a session
  -- and returned an empty token has left a token file on which the next call fails, whether it is
  -- made to refresh or not.
  pub access_token_locked_out :
      (force again : Bool) (w w' : Disk) (t : TokenSet) (out : AccessTokenOutput)
      → s.store ≡ file_store tf faults (some path)
      → faults.read path ≡ none
      → s.store.load w ≡ ok t
      → access_token s force w ≡ (ok out, w')
      → is_empty out.token ≡ true
      → (e : Error) × (access_token s again w' ≡ (err e, w'))
        × (e.code ≡ "TOKEN_LOAD_FAILED")
        × (e.status_code ≡ 500)
  unfolding missing
  access_token_locked_out force again w w' t out st r l h empty =
      elim (access_token_outcome s force w w' t out l h) [
        | inl (_, _, given, _) ↦ absurd (ground (arith, loaded-missing w t st l))
        | inr (_, done) ↦
            access_token_refused s again w' _ _
              (unreadable _ (stored-err w w' t out st r done empty))
      ]
