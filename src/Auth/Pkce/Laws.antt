-- ===== src/Auth/Pkce/Laws.antt =====
-- internal/auth/service.go: how long the texts of a login are.
use Prim.Native.Nat.{◌+◌, ◌%◌, min}
use Prim.Native.String
use text.Mathlib.TextLemmas.{length-append, length-cons}
use text.Mathlib.TextPositions.{len-append}
use claude_oauth_proxy.Base.{
  ap, ℕ, String, arith, ◌≡◌, refl, Bool, true, ◌&&◌, nat_eq, length, List, [], ◌∷◌, zero, suc, ◌<◌,
}
use claude_oauth_proxy.Core.{Action, ok}
use claude_oauth_proxy.Tokens.{IoError}
use claude_oauth_proxy.Auth.Pkce.{
  Pkce, alphabet, pick, digit, encode, take_chars, truncate, generate_pkce, random_base64_url,
}

one_byte_below : ℕ → Bool
one_byte_below zero = true
one_byte_below (suc n) =
    nat_eq (String.len (pick alphabet n)) 1
    && nat_eq (String.count (pick alphabet n)) 1
    && one_byte_below n

one_byte_table : one_byte_below 64 ≡ true
unfolding one_byte_below digit
one_byte_table = refl

one_byte_sound :
    (n k : ℕ)
    → one_byte_below n ≡ true
    → k < n
    → (String.len (pick alphabet k) ≡ 1) × (String.count (pick alphabet k) ≡ 1)
unfolding one_byte_below
one_byte_sound zero k h lt = absurd (omega arith)
one_byte_sound (suc n) k h lt = ground (arith, one_byte_sound n k)

len-digit : (n : ℕ) → String.len (digit n) ≡ 1
unfolding digit
len-digit n = (one_byte_sound 64 (n % 64) one_byte_table (omega arith)).0

count-digit : (n : ℕ) → String.count (digit n) ≡ 1
unfolding digit
count-digit n = (one_byte_sound 64 (n % 64) one_byte_table (omega arith)).1

-- The number of digits that so many bytes take.
abbrev digits : ℕ → ℕ
digits zero = 0
digits (suc zero) = 2
digits (suc (suc zero)) = 3
digits (suc (suc (suc n))) = 4 + digits n

ruleset lengths = (arith, len-append, length-append, len-digit, count-digit)

pub digits-encode :
    (bs : List ℕ)
    → (String.len (encode bs) ≡ digits (length bs))
      × (String.count (encode bs) ≡ digits (length bs))
unfolding encode
digits-encode [] = (refl, refl)
digits-encode (a ∷ []) = omega lengths
digits-encode (a ∷ b ∷ []) = omega lengths
digits-encode (a ∷ b ∷ c ∷ rest) = omega (lengths, digits-encode rest)

count-take_chars : (n : ℕ) (s : String) → String.count (take_chars n s) ≡ min n (String.count s)
count-take_chars zero s = omega arith
count-take_chars (suc n) String.[] = omega arith
count-take_chars (suc n) (String.◌∷◌ c s) = simp length-cons (omega (arith, count-take_chars n s))

module _ {W : Type 0} (random : ℕ → Action W IoError (List ℕ)) (w w' : W) (bs : List ℕ) where
  -- When 64 random bytes are read, the PKCE verifier is their whole base64url encoding, of 86
  -- bytes, and the challenge is the encoding of its hash.
  pub generate_pkce_lem :
      (sha256 : List ℕ → List ℕ) (bytes : String → List ℕ)
      → random 64 w ≡ (ok bs, w')
      → length bs ≡ 64
      → (p : Pkce) × (generate_pkce random sha256 bytes w ≡ (ok p, w'))
        × (p.verifier ≡ encode bs)
        × (String.len p.verifier ≡ 86)
        × (p.challenge ≡ encode (sha256 (bytes p.verifier)))
  unfolding generate_pkce
  generate_pkce_lem sha256 bytes r l =
      let long : String.len (encode bs) ≡ 86 = rw (digits-encode bs).0 (ap digits l) in
      let whole : truncate 128 (encode bs) ≡ encode bs = rw long in
      (
        record { verifier = encode bs; challenge = encode (sha256 (bytes (encode bs))) },
        rw r (rw whole),
        refl,
        long,
        refl,
      )

  -- When 32 random bytes are read, the OAuth state is the first 32 characters of their base64url
  -- encoding, and has 32 characters.
  pub random_base64_url_lem :
      random 32 w ≡ (ok bs, w')
      → length bs ≡ 32
      → (state : String) × (random_base64_url random 32 w ≡ (ok state, w'))
        × (state ≡ take_chars 32 (encode bs))
        × (String.count state ≡ 32)
  unfolding random_base64_url
  random_base64_url_lem r l =
      let long : String.len (encode bs) ≡ 43 = rw (digits-encode bs).0 (ap digits l) in
      let short : truncate 32 (encode bs) ≡ take_chars 32 (encode bs) = rw long in
      (
        take_chars 32 (encode bs),
        rw r (rw short),
        refl,
        rw count-take_chars (rw ((digits-encode bs).1, l)),
      )
