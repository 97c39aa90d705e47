-- ===== src/Tokens/Fallback.antt =====
-- internal/tokens/store.go: `FallbackStore`, a writable store over a seed that is only read.
pub mod Laws
use claude_oauth_proxy.Core.{Result, ok, err, panic}
use claude_oauth_proxy.Tokens.Types.{TokenSet}
use claude_oauth_proxy.Tokens.Contract.{Store, IoError}

or_seed : Result IoError TokenSet → Result IoError TokenSet → Result IoError TokenSet
or_seed (ok t) seed = ok t
or_seed (err e) seed = seed
or_seed panic seed = panic

unfoldable pub fallback_store : {W : Type 0} → Store W → Store W → Store W
unfolding or_seed
fallback_store primary seed = record {
  load = λ w. or_seed (primary.load w) (seed.load w);
  save = primary.save;
  delete = primary.delete;
  path = primary.path;
}
