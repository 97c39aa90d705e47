-- ===== src/Auth/Provider/Url.antt =====
-- net/url's `Values.Encode`, of which the authorization URL is made.
use Prim.Native.Nat.{◌+◌, ◌/◌, ◌%◌}
use Prim.Native.String
use claude_oauth_proxy.Base.{
  hex_from, ℕ, String, code, Bool, ◌&&◌, ◌||◌, List, [], ◌∷◌, leb, ltb, nat_eq, if◌then◌else◌,
}

is_unreserved : ℕ → Bool
is_unreserved c =
    leb b'a' c && leb c b'z'
    || leb b'A' c && leb c b'Z'
    || leb b'0' c && leb c b'9'
    || nat_eq c b'-'
    || nat_eq c b'_'
    || nat_eq c b'.'
    || nat_eq c b'~'

percent : ℕ → String
unfolding hex_from
percent b =
    String.◌++◌ "%"
      (String.◌++◌ (hex_from "0123456789ABCDEF" (b / 16)) (hex_from "0123456789ABCDEF" (b % 16)))

-- The bytes of a character in UTF-8, each escaped.
escape_wide : ℕ → String
unfolding percent
escape_wide c =
    if ltb c 0x80
    then percent c
    else if ltb c 0x800
    then String.◌++◌ (percent (0xc0 + c / 64)) (percent (0x80 + c % 64))
    else if ltb c 0x10000
    then String.◌++◌ (percent (0xe0 + c / 4096))
        (String.◌++◌ (percent (0x80 + c / 64 % 64)) (percent (0x80 + c % 64)))
    else String.◌++◌ (percent (0xf0 + c / 262144)) (
        String.◌++◌ (percent (0x80 + c / 4096 % 64))
          (String.◌++◌ (percent (0x80 + c / 64 % 64)) (percent (0x80 + c % 64))))

query_escape : String → String
query_escape String.[] = ""
query_escape (String.◌∷◌ c s) =
    String.◌++◌
      (if is_unreserved (code c)
        then String.◌∷◌ c String.[]
        else if nat_eq (code c) 32
        then "+"
        else escape_wide (code c))
      (query_escape s)

encode_pair : String × String → String
encode_pair (k, v) = String.◌++◌ (query_escape k) (String.◌++◌ "=" (query_escape v))

-- The pairs stand in the order of their keys.
unfoldable pub encode_query : List (String × String) → String
unfolding encode_pair query_escape is_unreserved escape_wide
encode_query [] = ""
encode_query (p ∷ []) = encode_pair p
encode_query (p ∷ q ∷ rest) =
    String.◌++◌ (encode_pair p) (String.◌++◌ "&" (encode_query (q ∷ rest)))
