-- ===== src/Http/RequestId.antt =====
-- internal/adapters/http/handler.go: `generateRequestID`.
use Prim.Native.Nat.{◌/◌, ◌%◌}
use claude_oauth_proxy.Base.{ℕ, String, ◌⧺◌, Option, none, some, List, [], ◌∷◌, hex_from}

hex_digit : ℕ → String
unfolding hex_from
hex_digit n = hex_from "0123456789abcdef" n

-- hex.EncodeToString
unfoldable pub encode_to_string : List ℕ → String
unfolding hex_digit
encode_to_string [] = ""
encode_to_string (b ∷ bs) = hex_digit (b / 16) ⧺ hex_digit (b % 16) ⧺ encode_to_string bs

abbrev request_id_of : {S : Type 0} → Option (List ℕ) × S → String × S
request_id_of (none, s) = ("unknown", s)
request_id_of (some b, s) = (encode_to_string b, s)

-- `rand.Read` of 16 bytes, which may fail.
unfoldable pub generate_request_id : {S : Type 0} → (ℕ → S → Option (List ℕ) × S) → S → String × S
unfolding encode_to_string
generate_request_id random s = request_id_of (random 16 s)
