-- ===== src/Auth/Pkce.antt =====
-- internal/auth/service.go: `generatePKCE` and `randomBase64URL`, with base64.RawURLEncoding.
pub mod Laws
use Prim.Native.String
use Prim.Native.Nat.{◌+◌, ◌*◌, ◌/◌, ◌%◌}
use claude_oauth_proxy.Base.{◌⧺◌, ℕ, zero, suc, String, List, [], ◌∷◌, ltb, if◌then◌else◌}
use claude_oauth_proxy.Core.{Action, pure, ◌>>=◌}
use claude_oauth_proxy.Tokens.{IoError}

abbrev alphabet : String
alphabet = "ABCDEFGHIJKLMNOPQRSTUVWXYZabcdefghijklmnopqrstuvwxyz0123456789-_"

-- The digit at an index; the last one stands for an index past the end.
pick : String → ℕ → String
pick String.[] n = ""
pick (String.◌∷◌ c String.[]) n = String.◌∷◌ c String.[]
pick (String.◌∷◌ c (String.◌∷◌ d s)) zero = String.◌∷◌ c String.[]
pick (String.◌∷◌ c (String.◌∷◌ d s)) (suc n) = pick (String.◌∷◌ d s) n

pub digit : ℕ → String
unfolding pick
digit n = pick alphabet (n % 64)

-- Three bytes are four digits; the last one or two bytes are two or three.
pub encode : List ℕ → String
unfolding digit
encode [] = ""
encode (a ∷ []) = digit (a / 4) ⧺ digit (a % 4 * 16)
encode (a ∷ b ∷ []) = digit (a / 4) ⧺ digit (a % 4 * 16 + b / 16) ⧺ digit (b % 16 * 4)
encode (a ∷ b ∷ c ∷ rest) =
    digit (a / 4)
    ⧺ digit (a % 4 * 16 + b / 16)
    ⧺ digit (b % 16 * 4 + c / 64)
    ⧺ digit (c % 64)
    ⧺ encode rest

-- `s[:n]`, of a text of one-byte characters.
abbrev pub take_chars : ℕ → String → String
take_chars zero s = ""
take_chars (suc n) String.[] = ""
take_chars (suc n) (String.◌∷◌ c s) = String.◌∷◌ c (take_chars n s)

abbrev pub truncate : ℕ → String → String
truncate n s = if ltb n (String.len s) then take_chars n s else s

-- sha256.Sum256 is taken as given.
pub record Pkce : Type 0 where
  pub verifier : String
  pub challenge : String

module _ {W : Type 0} (random : ℕ → Action W IoError (List ℕ)) where
  unfoldable pub generate_pkce : (List ℕ → List ℕ) → (String → List ℕ) → Action W IoError Pkce
  unfolding encode
  generate_pkce sha256 bytes = do
    b ← random 64
    let verifier = truncate 128 (encode b)
    pure (record { verifier = verifier; challenge = encode (sha256 (bytes verifier)) })

  unfoldable pub random_base64_url : ℕ → Action W IoError String
  unfolding encode
  random_base64_url n = do b ← random n; pure (truncate n (encode b))
