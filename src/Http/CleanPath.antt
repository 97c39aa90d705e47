-- ===== src/Http/CleanPath.antt =====
-- Package net/http: `cleanPath`, and the escaping of a text in HTML.
use claude_oauth_proxy.Base.{
  String, code, Bool, false, not, ◌&&◌, ◌||◌, ◌==◌, ◌⧺◌, List, [], ◌∷◌, nat_eq, is_empty,
  if◌then◌else◌, split_on,
}

abbrev pop : List String → List String
pop [] = []
pop (s ∷ ss) = ss

-- One segment of the path, after the ones before it, the last of them first.
abbrev enter : String → List String → List String
enter s before =
    if is_empty s || s == "." then before else if s == ".." then pop before else s ∷ before

resolve : List String → List String → List String
resolve before [] = before
resolve before (s ∷ ss) = resolve (enter s before) ss

rooted : List String → String → String
rooted [] rest = rest
rooted (s ∷ before) rest = rooted before ("/" ⧺ s ⧺ rest)

ends_with_slash : String → Bool
ends_with_slash String.[] = false
ends_with_slash (String.◌∷◌ c String.[]) = nat_eq (code c) b'/'
ends_with_slash (String.◌∷◌ c (String.◌∷◌ d s)) = ends_with_slash (String.◌∷◌ d s)

-- path.Clean of a rooted path.
abbrev clean : String → String
clean text = if is_empty text then "/" else text

abbrev with_slash : Bool → String → String
with_slash slash p = if slash && not (p == "/") then p ⧺ "/" else p

unfoldable pub clean_path : String → String
unfolding resolve rooted ends_with_slash split_on
clean_path p = with_slash (ends_with_slash p) (clean (rooted (resolve [] (split_on b'/' p)) ""))

escape_char : String → String → String
escape_char s rest =
    if s == "&"
    then "&amp;" ⧺ rest
    else if s == "<"
    then "&lt;" ⧺ rest
    else if s == ">"
    then "&gt;" ⧺ rest
    else if s == "\""
    then "&#34;" ⧺ rest
    else if s == "'"
    then "&#39;" ⧺ rest
    else s ⧺ rest

unfoldable pub html_escape : String → String
unfolding escape_char
html_escape String.[] = ""
html_escape (String.◌∷◌ c s) = escape_char (String.◌∷◌ c "") (html_escape s)
