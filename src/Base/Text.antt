-- ===== src/Base/Text.antt =====
-- Go's strings as native texts (valid UTF-8), and the functions of package strings that the
-- program calls: TrimSpace, ToLower and ToUpper on ASCII, TrimPrefix, TrimSuffix, Join.
use Prim.Native.Nat.{zero, suc, ℕ, ◌+◌, ◌<◌}
use Prim.Native.Char.{Char, code}
use Prim.Native.String
use Prim.Native.String.{String, [], ◌∷◌}
use mathlib.Core.Path.{ap, refl, ◌≡◌, ◌∙◌}
use mathlib.Core.Logic.{inr, inl, ◌≢◌}
use mathlib.Core.Bool.{Bool, true, false, ◌&&◌, ◌||◌}
use text.Mathlib.TextLemmas.{length-append}
use native.Mathlib.Omega.{arith}
use claude_oauth_proxy.Base.Test.{Bool-cases, leb, nat_eq, if◌then◌else◌}

-- unicode.IsSpace
abbrev between : ℕ → ℕ → ℕ → Bool
between lo hi c = leb lo c && leb c hi

pub is_space : ℕ → Bool
is_space c =
    between 9 13 c
    || nat_eq c 32
    || nat_eq c 0x85
    || nat_eq c 0xA0
    || nat_eq c 0x1680
    || between 0x2000 0x200a c
    || between 0x2028 0x2029 c
    || nat_eq c 0x202f
    || nat_eq c 0x205f
    || nat_eq c 0x3000

abbrev pub is_empty : String → Bool
is_empty [] = true
is_empty (c ∷ s) = false

abbrev pub trim_left : String → String
trim_left [] = []
trim_left (c ∷ s) = if is_space (code c) then trim_left s else c ∷ s

-- One character put before a text whose right end has been trimmed.
abbrev put_trimmed : Char → String → String
put_trimmed c [] = if is_space (code c) then [] else c ∷ []
put_trimmed c (d ∷ s) = c ∷ d ∷ s

abbrev pub trim_right : String → String
trim_right [] = []
trim_right (c ∷ s) = put_trimmed c (trim_right s)

-- strings.TrimSpace
unfoldable pub trim_space : String → String
unfolding is_space
trim_space s = trim_right (trim_left s)

-- `strings.TrimSpace(s) == ""`
unfoldable pub is_blank : String → Bool
unfolding trim_space
is_blank s = is_empty (trim_space s)

-- One letter as `encoding/json` folds it to compare a key with a field's name: ASCII capitals, the
-- long s and the Kelvin sign.
fold_char : ℕ → ℕ
fold_char c =
    if between b'A' b'Z' c
    then c + 32
    else if nat_eq c 0x17f
    then b's'
    else if nat_eq c 0x212a
    then b'k'
    else c

abbrev fold_eq : String → String → Bool
fold_eq [] [] = true
fold_eq (c ∷ s) (d ∷ t) = nat_eq (fold_char (code c)) (fold_char (code d)) && fold_eq s t
fold_eq _ _ = false

-- Whether a key of a JSON object is taken for the field of this name.
unfoldable pub names_field : String → String → Bool
unfolding fold_char
names_field field key = fold_eq field key

-- strings.ToLower on one letter, as far as the result is ASCII: the capitals, the dotted I and the
-- Kelvin sign.
lower_char : ℕ → ℕ
lower_char c =
    if between b'A' b'Z' c
    then c + 32
    else if nat_eq c 0x130
    then b'i'
    else if nat_eq c 0x212a
    then b'k'
    else c

abbrev lower_eq : String → String → Bool
lower_eq [] [] = true
lower_eq (c ∷ s) (d ∷ t) = nat_eq (lower_char (code c)) (code d) && lower_eq s t
lower_eq _ _ = false

-- `strings.ToLower(s) == word`, for a word in small ASCII letters.
unfoldable pub lowers_to : String → String → Bool
unfolding lower_char
lowers_to s word = lower_eq s word

infixr 65 ◌⧺◌
abbrev pub ◌⧺◌ : String → String → String
s ⧺ t = String.◌++◌ s t

pub append-ne_self : (s t : String) → 0 < String.count t → String.◌++◌ s t ≢ s
append-ne_self s t h e =
    absurd (omega (arith, length-append s t, ap (λ (u : String). String.count u) e))

-- Trimming twice is trimming once.
put_trimmed-trim_right :
    (c : Char) (s : String) → trim_right s ≡ s → trim_right (put_trimmed c s) ≡ put_trimmed c s
put_trimmed-trim_right c [] h = go (is_space (code c)) refl
  where
    go :
        (b : Bool)
        → is_space (code c) ≡ b
        → trim_right (if b then [] else c ∷ []) ≡ (if b then [] else c ∷ [])
    go true e = refl
    go false e = rw e refl
put_trimmed-trim_right c (d ∷ s) h = rw h refl

trim_right-trim_right : (s : String) → trim_right (trim_right s) ≡ trim_right s
trim_right-trim_right [] = refl
trim_right-trim_right (c ∷ s) = put_trimmed-trim_right c (trim_right s) (trim_right-trim_right s)

trim_left-put_trimmed :
    (c : Char) (s : String)
    → is_space (code c) ≡ false
    → trim_left (put_trimmed c s) ≡ put_trimmed c s
trim_left-put_trimmed c [] h = ground arith
trim_left-put_trimmed c (d ∷ s) h = rw h refl

trim_left-trim_right :
    (s : String) → trim_left (trim_right (trim_left s)) ≡ trim_right (trim_left s)
trim_left-trim_right [] = refl
trim_left-trim_right (c ∷ s) = elim (Bool-cases (is_space (code c))) [
  | inl space ↦ rw space (trim_left-trim_right s)
  | inr solid ↦ rw solid (trim_left-put_trimmed c (trim_right s) solid)
]

pub trim_space_idem : (s : String) → trim_space (trim_space s) ≡ trim_space s
unfolding trim_space
trim_space_idem s = ap trim_right (trim_left-trim_right s) ∙ trim_right-trim_right (trim_left s)

-- The digit at an index.
unfoldable pub hex_from : String → ℕ → String
hex_from String.[] n = ""
hex_from (String.◌∷◌ c s) zero = String.◌∷◌ c String.[]
hex_from (String.◌∷◌ c s) (suc n) = hex_from s n
