-- ===== src/Anthropic/Service.antt =====
-- internal/provider/anthropic/service.go: the service of `New` behind the interface of a provider, with
-- the streams that it has opened.
pub mod Laws
use claude_oauth_proxy.Base.{
  ℕ, ℤ, pos, zero, suc, String, Option, none, some, List, [], ◌∷◌, ◌++◌, length,
}
use claude_oauth_proxy.Core.{Error, Result, ok, err, panic, Action}
use claude_oauth_proxy.Anthropic.Types.{Config}
use claude_oauth_proxy.Anthropic.Stream.{StreamState, Pulled, eof, next}
use claude_oauth_proxy.Anthropic.Calls
use claude_oauth_proxy.Anthropic.Calls.{Upstream, ChunkStream}
use claude_oauth_proxy.Provider.{ProviderService}

-- The turn counter, what the service reaches, and the variables of each stream that was opened.
pub record Reached (W F : Type 0) : Type 0 where
  pub turn : ℤ
  pub world : W
  pub streams : List (StreamState F)

abbrev pub fresh : {W F : Type 0} → W → Reached W F
fresh w = record { turn = pos 0; world = w; streams = [] }

-- A stream that was opened: its id and model, and which of the streams it is.
pub record OpenedStream : Type 0 where
  pub id : String
  pub model : String
  pub number : ℕ

module _ {A : Type 0} where
  abbrev pub nth : ℕ → List A → Option A
  nth n [] = none
  nth zero (x ∷ xs) = some x
  nth (suc n) (x ∷ xs) = nth n xs

  abbrev pub set_nth : ℕ → A → List A → List A
  set_nth n y [] = []
  set_nth zero y (x ∷ xs) = y ∷ xs
  set_nth (suc n) y (x ∷ xs) = x ∷ set_nth n y xs

module _ {W F : Type 0} where
  abbrev counted : {A : Type 0} → Action (ℤ × W) Error A → Action (Reached W F) Error A
  counted m s = let (r, (turn, w)) = m (s.turn, s.world) in (r, record s { turn = turn; world = w })

  abbrev listed : {A : Type 0} → Action W Error A → Action (Reached W F) Error A
  listed m s = let (r, w) = m s.world in (r, record s { world = w })

  -- The variables of a new stream are kept under the next number.
  abbrev pub opened_stream :
      Result Error (ChunkStream F) × Reached W F → Result Error OpenedStream × Reached W F
  opened_stream (ok c, s) = (
    ok (record { id = c.id; model = c.model; number = length s.streams }),
    record s { streams = s.streams ++ c.state ∷ [] },
  )
  opened_stream (err e, s) = (err e, s)
  opened_stream (panic, s) = (panic, s)

  abbrev pub next_of :
      (ℕ → ℤ) → OpenedStream → Option (StreamState F) → Reached W F → Pulled F × Reached W F
  next_of clock c none s = (eof, s)
  next_of clock c (some st) s =
      let (pulled, st') = next c.id c.model clock st in
      (pulled, record s { streams = set_nth c.number st' s.streams })

-- `close` is `Close` of the SDK's stream; `clock n` is the n-th reading of the clock by a stream.
module _ {W F S : Type 0} (up : Upstream W F S) (one : F) (parse_schema : String → Option S)
    (clock : ℕ → ℤ) (close : W → W) where
  unfoldable pub anthropic_service : Config → ProviderService (Reached W F) F OpenedStream
  anthropic_service cfg = record {
    list_models = listed (Calls.list_models up cfg);
    create_chat_completion = λ q. counted (Calls.create_chat_completion up one parse_schema cfg q);
    create_chat_completion_stream = λ q s.
        opened_stream (counted (Calls.create_chat_completion_stream up one parse_schema cfg q) s);
    next = λ c s. next_of clock c (nth c.number s.streams) s;
    close = λ c s. record s { world = close s.world };
  }
