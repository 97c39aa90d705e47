-- ===== src/Cli/Code.antt =====
-- internal/adapters/cli/run.go: `normalizeCode`.
pub mod Search
pub mod Laws
use Prim.Native.String
use claude_oauth_proxy.Base.{
  ℕ, String, code, Option, none, some, if◌then◌else◌, nat_eq, is_empty, trim_space,
}

-- What follows a prefix.
abbrev pub strip : String → String → Option String
strip String.[] s = some s
strip (String.◌∷◌ p ps) String.[] = none
strip (String.◌∷◌ p ps) (String.◌∷◌ c s) = if nat_eq (code c) (code p) then strip ps s else none

-- What follows the first place where the pattern stands: `strings.Contains` and `strings.Index`.
unfoldable pub after : String → String → Option String
after pattern String.[] = strip pattern ""
after pattern (String.◌∷◌ c s) =
    let later = after pattern s in
    elim (strip pattern (String.◌∷◌ c s)) [ some rest ↦ some rest | none ↦ later ]

-- What stands before the first separator: `strings.Index`, and all of the text where there is none.
unfoldable pub cut_at : ℕ → String → String
cut_at separator String.[] = ""
cut_at separator (String.◌∷◌ c s) =
    if nat_eq (code c) separator then "" else String.◌∷◌ c (cut_at separator s)

-- The loop over the separators.
abbrev pub cut : String → String
cut s = trim_space (cut_at b'#' (cut_at b'&' s))

-- `query` is url.Parse with the `code` of the query: `none` where the text is no URL.
abbrev pub value_or_cut : Option String → String → String
value_or_cut none rest = cut rest
value_or_cut (some v) rest = let value = trim_space v in if is_empty value then cut rest else value

abbrev pub from_label : (String → Option String) → String → Option String → String
from_label query trimmed none = cut trimmed
from_label query trimmed (some rest) = value_or_cut (query trimmed) rest

unfoldable pub normalize_code : (String → Option String) → String → String
unfolding after cut_at
normalize_code query raw =
    let trimmed = trim_space raw in
    if is_empty trimmed then "" else from_label query trimmed (after "code=" trimmed)
