-- ===== src/Base/Split.antt =====
-- strings.Split with a separator of one character; there is always a part.
use Prim.Native.String
use Prim.Native.String.{String}
use Prim.Native.Nat.{ℕ}
use Prim.Native.Char.{code}
use mathlib.Core.List.{List, [], ◌∷◌}
use claude_oauth_proxy.Base.Test.{nat_eq, if◌then◌else◌}

abbrev pub put_char : String → List String → List String
put_char s [] = s ∷ []
put_char s (part ∷ parts) = String.◌++◌ s part ∷ parts

unfoldable pub split_on : ℕ → String → List String
split_on separator String.[] = "" ∷ []
split_on separator (String.◌∷◌ c s) =
    let parts = split_on separator s in
    if nat_eq (code c) separator then "" ∷ parts else put_char (String.◌∷◌ c "") parts
