-- ===== src/Json/Raw.antt =====
-- `json.RawMessage`, as package encoding/json marshals it.
use claude_oauth_proxy.Base.{ℕ, String, code, Bool, ◌||◌, ◌⧺◌, nat_eq, if◌then◌else◌}

-- A message that is nil, one that is the text of a document, and one whose text is none.
pub data RawMessage : Type 0 where
  absent : RawMessage
  document : String → RawMessage
  malformed : String → RawMessage

-- Where `Compact` stands: between tokens, in a string, or behind a backslash in a string.
pub data Place : Type 0 where
  outside : Place
  inside : Place
  escaped : Place

abbrev is_json_space : ℕ → Bool
is_json_space c = nat_eq c 32 || nat_eq c 9 || nat_eq c 10 || nat_eq c 13

abbrev place_after : Place → ℕ → Place
place_after outside c = if nat_eq c b'"' then inside else outside
place_after inside c = if nat_eq c b'"' then outside else if nat_eq c b'\\' then escaped else inside
place_after escaped c = inside

-- A character of a string, with the ones that HTML and JavaScript would read escaped.
html_safe : ℕ → String → String
html_safe c text =
    if nat_eq c b'<'
    then "\\u003c"
    else if nat_eq c b'>'
    then "\\u003e"
    else if nat_eq c b'&'
    then "\\u0026"
    else if nat_eq c 0x2028
    then "\\u2028"
    else if nat_eq c 0x2029
    then "\\u2029"
    else text

abbrev put_at : Place → ℕ → String → String → String
put_at outside c text rest = if is_json_space c then rest else html_safe c text ⧺ rest
put_at inside c text rest = html_safe c text ⧺ rest
put_at escaped c text rest = html_safe c text ⧺ rest

-- The text of a document, without the space between its tokens.
unfoldable pub compact_from : Place → String → String
unfolding html_safe
compact_from place String.[] = ""
compact_from place (String.◌∷◌ c s) =
    let rest = compact_from (place_after place (code c)) s in
    put_at place (code c) (String.◌∷◌ c String.[]) rest

abbrev pub compact : String → String
compact s = compact_from outside s

-- `json.Marshal`, with its error dropped: no text comes with an error.
abbrev pub marshal_raw : RawMessage → String
marshal_raw absent = "null"
marshal_raw (document s) = compact s
marshal_raw (malformed s) = ""
