-- ===== src/Runtime/ByteSize/Numerals.antt =====
-- internal/runtime/config.go: how a byte size is written, and what `ParseByteSize` reads of it.
use Prim.Native.Char.{Char}
use Prim.Native.Nat.{◌-◌}
use mathlib.Core.Option
use text.Mathlib.TextLemmas.{cons-append, nil-append, append-nil, cons-ne-nil}
use claude_oauth_proxy.Base.{
  trim_space, ℕ, pos, ◌+◌, ◌*◌, ◌<◌, ◌^◌, ◌≡◌, refl, ap, sym, subst, ◌∙◌, Bool-cases, inl, inr,
  String, code, ◌⧺◌, Bool, true, false, ◌&&◌, leb, Option, none, some, if◌then◌else◌, arith,
  lowers_to,
}
use claude_oauth_proxy.Runtime.ByteSize.{
  or_unit, parse_digits, parse_int, cut_unit, split_unit, is_empty,
}

abbrev pub is_digit : Char → Bool
is_digit c = leb 48 (code c) && leb (code c) 57

-- A decimal numeral and its number: one digit, or a numeral with one more digit.
pub data IsNumeral : String → ℕ → Type 0 where
  one : (c : Char) → is_digit c ≡ true → IsNumeral (String.◌∷◌ c "") (code c - 48)
  more :
      (s : String) (n : ℕ) (c : Char)
      → IsNumeral s n
      → is_digit c ≡ true
      → IsNumeral (s ⧺ String.◌∷◌ c "") (n * 10 + (code c - 48))

-- The units, in capitals or small letters.
pub data IsUnit : String → ℕ → Type 0 where
  no_unit : IsUnit "" 1
  bytes : (b : Bool) → IsUnit (if b then "B" else "b") 1
  kilobytes : (k b : Bool) → IsUnit ((if k then "K" else "k") ⧺ (if b then "B" else "b")) (2 ^ 10)
  megabytes : (m b : Bool) → IsUnit ((if m then "M" else "m") ⧺ (if b then "B" else "b")) (2 ^ 20)
  gigabytes : (g b : Bool) → IsUnit ((if g then "G" else "g") ⧺ (if b then "B" else "b")) (2 ^ 30)

-- A text of characters that come before the letters, such as digits and spaces.
abbrev pub Letterless : String → Type 0
Letterless String.[] = Unit
Letterless (String.◌∷◌ c s) = (leb (code c) 64 ≡ true) × Letterless s

parse_digits-more :
    (a n : ℕ) (s : String) (c : Char)
    → parse_digits a s ≡ some n
    → is_digit c ≡ true
    → parse_digits a (s ⧺ String.◌∷◌ c "") ≡ some (n * 10 + (code c - 48))
unfolding parse_digits
parse_digits-more a n String.[] c e h = rw nil-append (ground arith)
parse_digits-more a n (String.◌∷◌ d s) c e h =
    let rest = parse_digits-more (a * 10 + (code d - 48)) n s c in
    rw (cons-append d s (String.◌∷◌ c "")) (elim (Bool-cases (is_digit d)) [
      | inl digit ↦ rw digit (rest (rw digit at e) h)
      | inr other ↦ let missed : Path (Option ℕ) none (some n) = rw other at e in absurd (cc)
    ])

-- The first character, and the number by accumulation.
IsNumeral-parse_digits : {s : String} {n : ℕ} → IsNumeral s n → parse_digits 0 s ≡ some n
unfolding parse_digits
IsNumeral-parse_digits (one c h) = ground arith
IsNumeral-parse_digits (more s n c k h) = parse_digits-more 0 n s c (IsNumeral-parse_digits k) h

abbrev Begins : String → Type 0
Begins s = (c : Char) × (t : String) × (s ≡ String.◌∷◌ c t) × (is_digit c ≡ true)

IsNumeral-Begins : {s : String} {n : ℕ} → IsNumeral s n → Begins s
IsNumeral-Begins (one c h) = (c, "", refl, h)
IsNumeral-Begins (more s n c k h) =
    let (d, t, e, first) = IsNumeral-Begins k in
    (d, t ⧺ String.◌∷◌ c "", ap (λ (u : String). u ⧺ String.◌∷◌ c "") e ∙ cons-append d t _, first)

begun-parse_int :
    (c : Char) (t : String) (n : ℕ)
    → is_digit c ≡ true
    → parse_digits 0 (String.◌∷◌ c t) ≡ some n
    → n < 2 ^ 63
    → parse_int (String.◌∷◌ c t) ≡ some (pos n)
unfolding parse_int
begun-parse_int c t n h e small = rw (parse_int, e) (ground arith)

pub IsNumeral-parse_int :
    {s : String} {n : ℕ} → IsNumeral s n → n < 2 ^ 63 → parse_int s ≡ some (pos n)
IsNumeral-parse_int {s = s} {n = n} k small =
    let (c, t, e, first) = IsNumeral-Begins k in
    subst (λ (u : String). parse_int u ≡ some (pos n)) (sym e)
      (begun-parse_int c t n first
        (subst (λ (u : String). parse_digits 0 u ≡ some n) e (IsNumeral-parse_digits k)) small)

not_lowered :
    (c l : Char) (s t : String)
    → leb (code c) 64 ≡ true
    → leb 97 (code l) ≡ true
    → lowers_to (String.◌∷◌ c s) (String.◌∷◌ l t) ≡ false
unfolding lowers_to
not_lowered c l s t h k = ground arith

abbrev behind : String → Option String → Option String
behind p o = Option.map (λ (v : String). p ⧺ v) o

behind_nothing : (o : Option String) → o ≡ behind "" o
behind_nothing none = refl
behind_nothing (some v) = ap some (sym (nil-append v))

behind-cons :
    (c : Char) (p : String) (o : Option String)
    → Option.map (λ (v : String). String.◌∷◌ c v) (behind p o) ≡ behind (String.◌∷◌ c p) o
behind-cons c p none = refl
behind-cons c p (some v) = ap some (sym (cons-append c p v))

-- A unit is looked for behind what is not letters.
cut_unit-behind :
    (l : Char) (t p u : String)
    → leb 97 (code l) ≡ true
    → Letterless p
    → cut_unit (String.◌∷◌ l t) (p ⧺ u) ≡ behind p (cut_unit (String.◌∷◌ l t) u)
unfolding cut_unit
cut_unit-behind l t String.[] u k h = rw (nil-append u) (behind_nothing _)
cut_unit-behind l t (String.◌∷◌ c p) u k (low, h) =
    rw (cons-append c p u, cut_unit, not_lowered c l (p ⧺ u) t low k, cut_unit-behind l t p u k h)
      (behind-cons c p _)

split_unit-behind :
    (p u : String)
    → Letterless p
    → split_unit (p ⧺ u)
      ≡ or_unit (behind p (cut_unit "gb" u)) 1073741824 (
          or_unit (behind p (cut_unit "mb" u)) 1048576 (
            or_unit
              (behind p (cut_unit "kb" u))
              1024
              (or_unit (behind p (cut_unit "b" u)) 1 (p ⧺ u, 1))))
unfolding split_unit
split_unit-behind p u h =
    rw
      (
        cut_unit-behind "g" "b" p u refl h,
        cut_unit-behind "m" "b" p u refl h,
        cut_unit-behind "k" "b" p u refl h,
        cut_unit-behind "b" "" p u refl h,
      )
      refl

pub split_unit-IsUnit :
    (p : String) {u : String} {size : ℕ}
    → IsUnit u size
    → Letterless p
    → split_unit (p ⧺ u) ≡ (p, size)
unfolding cut_unit lowers_to
split_unit-IsUnit p k h = split_unit-behind p _ h ∙ rest k
  where
    alone : {size : ℕ} → Path (String × ℕ) (p ⧺ "", size) (p, size)
    alone {size = size} = ap (λ (q : String). (q, size)) (append-nil p)

    rest :
        {u : String} {size : ℕ}
        → IsUnit u size
        → Path
            (String × ℕ)
            (or_unit (behind p (cut_unit "gb" u)) 1073741824 (
              or_unit (behind p (cut_unit "mb" u)) 1048576 (
                or_unit
                  (behind p (cut_unit "kb" u))
                  1024
                  (or_unit (behind p (cut_unit "b" u)) 1 (p ⧺ u, 1)))))
            (p, size)
    rest no_unit = alone
    rest (bytes true) = alone
    rest (bytes false) = alone
    rest (kilobytes true true) = alone
    rest (kilobytes true false) = alone
    rest (kilobytes false true) = alone
    rest (kilobytes false false) = alone
    rest (megabytes true true) = alone
    rest (megabytes true false) = alone
    rest (megabytes false true) = alone
    rest (megabytes false false) = alone
    rest (gigabytes true true) = alone
    rest (gigabytes true false) = alone
    rest (gigabytes false true) = alone
    rest (gigabytes false false) = alone

-- What is a numeral when trimmed is not empty.
pub written-is_empty :
    (before unit : String) {numeral : String} {n : ℕ}
    → trim_space before ≡ numeral
    → IsNumeral numeral n
    → is_empty (before ⧺ unit) ≡ false
unfolding trim_space
written-is_empty String.[] unit t k =
    let (c, s, e, first) = IsNumeral-Begins k in absurd (cons-ne-nil c s (sym (t ∙ e)))
written-is_empty (String.◌∷◌ c s) unit t k = rw (cons-append c s unit) refl

pub IsUnit-below :
    {u : String} {size : ℕ} → IsUnit u size → (n : ℕ) → n * size < 2 ^ 63 → n < 2 ^ 63
IsUnit-below no_unit n h = omega arith
IsUnit-below (bytes b) n h = omega arith
IsUnit-below (kilobytes k b) n h = omega arith
IsUnit-below (megabytes m b) n h = omega arith
IsUnit-below (gigabytes g b) n h = omega arith
