-- ===== src/Anthropic/Service/Laws.antt =====
-- internal/provider/anthropic/service.go: the streams that a service has opened do not disturb each
-- other.
use mathlib.Core.Path.{ap, refl, ◌∙◌}
use claude_oauth_proxy.Base.{
  ℕ, ℤ, zero, suc, String, Option, none, some, List, [], ◌∷◌, ◌++◌, ◌≡◌, ◌≢◌, length,
}
use claude_oauth_proxy.Core.{Error, Result, ok, err, panic}
use claude_oauth_proxy.Openai.{ChatCompletionRequest, ChatCompletionChunk}
use claude_oauth_proxy.Anthropic.Types.{Config}
use claude_oauth_proxy.Anthropic.Stream.{StreamState, Pulled, got, eof, failed, next}
use claude_oauth_proxy.Anthropic.Stream.Drain.{Ending, at_eof, with_error, after, drain}
use claude_oauth_proxy.Anthropic.Calls.{Upstream, ChunkStream}
use claude_oauth_proxy.Provider.{ProviderService}
use claude_oauth_proxy.Anthropic.Service.{
  Reached, OpenedStream, nth, set_nth, opened_stream, next_of, anthropic_service,
}

module _ {A : Type 0} where
  nth-set_nth : (m n : ℕ) (y : A) (xs : List A) → n ≢ m → nth m (set_nth n y xs) ≡ nth m xs
  nth-set_nth m n y [] apart = refl
  nth-set_nth zero zero y (x ∷ xs) apart = elim (apart refl) [ ]
  nth-set_nth zero (suc n) y (x ∷ xs) apart = refl
  nth-set_nth (suc m) zero y (x ∷ xs) apart = refl
  nth-set_nth (suc m) (suc n) y (x ∷ xs) apart = nth-set_nth m n y xs (λ e. apart (ap suc e))

  nth-set_nth_same :
      (n : ℕ) (y x : A) (xs : List A) → nth n xs ≡ some x → nth n (set_nth n y xs) ≡ some y
  nth-set_nth_same zero y x (z ∷ xs) h = refl
  nth-set_nth_same (suc n) y x (z ∷ xs) h = nth-set_nth_same n y x xs h
  nth-set_nth_same n y x [] h = cc

  nth-append : (m : ℕ) (x : A) (xs ys : List A) → nth m xs ≡ some x → nth m (xs ++ ys) ≡ some x
  nth-append zero x (y ∷ xs) ys h = h
  nth-append (suc m) x (y ∷ xs) ys h = nth-append m x xs ys h
  nth-append m x [] ys h = cc

module _ {W F : Type 0} where
  opened_stream-kept :
      (m : ℕ) (st : StreamState F) (r : Result Error (ChunkStream F)) (s : Reached W F)
      → nth m s.streams ≡ some st
      → nth m (opened_stream (r, s)).1.streams ≡ some st
  opened_stream-kept m st (ok c) s h = nth-append m st s.streams _ h
  opened_stream-kept m st (err e) s h = h
  opened_stream-kept m st panic s h = h

  next_of-kept :
      (m : ℕ) (clock : ℕ → ℤ) (d : OpenedStream) (o : Option (StreamState F)) (s : Reached W F)
      → d.number ≢ m
      → nth m (next_of clock d o s).1.streams ≡ nth m s.streams
  next_of-kept m clock d none s apart = refl
  next_of-kept m clock d (some t) s apart = nth-set_nth m d.number _ s.streams apart

module _ {W F S : Type 0} (up : Upstream W F S) (one : F) (parse_schema : String → Option S)
    (clock : ℕ → ℤ) (close : W → W) (cfg : Config) (c : OpenedStream) where
  abbrev provider : ProviderService (Reached W F) F OpenedStream
  provider = anthropic_service up one parse_schema clock close cfg

  -- What may happen beside the stream `c`: anything but calls of its `next` and `close`.
  pub data Beside : Reached W F → Reached W F → Type 0 where
    done : (s : Reached W F) → Beside s s
    lists : (s s' : Reached W F) → Beside (provider.list_models s).1 s' → Beside s s'
    completes :
        (q : ChatCompletionRequest F) (s s' : Reached W F)
        → Beside (provider.create_chat_completion q s).1 s'
        → Beside s s'
    opens :
        (q : ChatCompletionRequest F) (s s' : Reached W F)
        → Beside (provider.create_chat_completion_stream q s).1 s'
        → Beside s s'
    pulls :
        (d : OpenedStream) (s s' : Reached W F)
        → d.number ≢ c.number
        → Beside (provider.next d s).1 s'
        → Beside s s'
    closes :
        (d : OpenedStream) (s s' : Reached W F)
        → d.number ≢ c.number
        → Beside (provider.close d s) s'
        → Beside s s'

  Beside-kept :
      (st : StreamState F) {s s' : Reached W F}
      → Beside s s'
      → nth c.number s.streams ≡ some st
      → nth c.number s'.streams ≡ some st
  unfolding anthropic_service
  Beside-kept st (done s) h = h
  Beside-kept st (lists s s' b) h = Beside-kept st b h
  Beside-kept st (completes q s s' b) h = Beside-kept st b h
  Beside-kept st (opens q s s' b) h = Beside-kept st b (opened_stream-kept c.number st _ _ h)
  Beside-kept st (pulls d s s' apart b) h =
      Beside-kept st b (next_of-kept c.number clock d _ s apart ∙ h)
  Beside-kept st (closes d s s' apart b) h = Beside-kept st b h

  -- A client of the stream `c` that calls next until the end, with anything beside in between: the
  -- chunks that it gets, and the end.
  pub data Hears : Reached W F → List (ChatCompletionChunk F) → Ending → Type 0 where
    chunk :
        (s s' : Reached W F) (k : ChatCompletionChunk F) (ks : List (ChatCompletionChunk F))
        (e : Ending)
        → Beside s s'
        → (provider.next c s').0 ≡ got k
        → Hears (provider.next c s').1 ks e
        → Hears s (k ∷ ks) e
    ended : (s s' : Reached W F) → Beside s s' → (provider.next c s').0 ≡ eof → Hears s [] at_eof
    fails :
        (s s' : Reached W F) (e : Error)
        → Beside s s'
        → (provider.next c s').0 ≡ failed e
        → Hears s [] (with_error e)

  next-pulled :
      (st : StreamState F) {s s' : Reached W F} (p : Pulled F)
      → Beside s s'
      → nth c.number s.streams ≡ some st
      → (provider.next c s').0 ≡ p
      → (next c.id c.model clock st).0 ≡ p
  unfolding anthropic_service
  next-pulled st p b h told = rw (Beside-kept st b h) at told

  next-kept :
      (st : StreamState F) {s s' : Reached W F}
      → Beside s s'
      → nth c.number s.streams ≡ some st
      → nth c.number (provider.next c s').1.streams ≡ some (next c.id c.model clock st).1
  unfolding anthropic_service
  next-kept st {s' = s'} b h =
      rw (Beside-kept st b h) (nth-set_nth_same c.number _ st s'.streams (Beside-kept st b h))

  -- A client that calls next on an open stream until it ends gets the same chunks and the same end
  -- as a client of that stream alone, whatever calls of the service, and of Next and Close of its
  -- other streams, come in between.
  pub Hears-drain :
      {s : Reached W F} {ks : List (ChatCompletionChunk F)} {e : Ending}
      → Hears s ks e
      → (st : StreamState F) → nth c.number s.streams ≡ some st
      → drain c.id c.model clock (suc (length ks)) st ≡ record { chunks = ks; ending = e }
  unfolding drain
  Hears-drain (chunk _ s' k ks' _ b told rest) st h =
      rw (next-pulled st (got k) b h told) (ap (after k) (Hears-drain rest _ (next-kept st b h)))
  Hears-drain (ended _ s' b told) st h = rw (next-pulled st eof b h told) refl
  Hears-drain (fails _ s' e' b told) st h = rw (next-pulled st (failed e') b h told) refl
