-- ===== src/Base/Decimal.antt =====
-- Numbers in decimal, as package fmt writes them.
use Prim.Native.Nat.{ℕ, zero, suc, ◌/◌, ◌%◌, ◌<◌, ◌≤◌}
use Prim.Native.String.{String, [], ◌∷◌}
use Prim.Native.Char.{Char}
use mathlib.Core.Path.{◌≡◌, refl}
use mathlib.Core.Path.{sym}
use mathlib.Core.Logic.{inl, inr}
use text.Mathlib.TextLemmas.{cons-append, nil-append}
use native.Mathlib.Omega.{arith}
use claude_oauth_proxy.Base.Test.{ltb, Bool-cases, if◌then◌else◌}
use claude_oauth_proxy.Base.Text.{◌⧺◌}
use claude_oauth_proxy.Base.Int.{ℤ, pos, negsuc}

char_from : String → Char → ℕ → Char
char_from [] last n = last
char_from (c ∷ s) last zero = c
char_from (c ∷ s) last (suc n) = char_from s last n

-- The digit of a number below ten.
pub decimal_digit : ℕ → Char
unfolding char_from
decimal_digit n = char_from "0123456789" "9" n

-- The digits of `n` before those of `acc`; the fuel is more than `n`.
show_from : ℕ → ℕ → String → String
show_from zero n acc = acc
show_from (suc fuel) n acc =
    let rest = show_from fuel (n / 10) (decimal_digit (n % 10) ∷ acc) in
    if ltb n 10 then decimal_digit (n % 10) ∷ acc else rest

unfoldable pub show_ℕ : ℕ → String
unfolding show_from decimal_digit
show_ℕ n = show_from (suc n) n ""

unfoldable pub show_ℤ : ℤ → String
unfolding show_ℕ
show_ℤ (pos n) = show_ℕ n
show_ℤ (negsuc n) = "-" ⧺ show_ℕ (suc n)

-- Any fuel above the number gives the same digits.
show_from_enough :
    (f g n : ℕ) (acc : String) → n < f → n < g → show_from f n acc ≡ show_from g n acc
unfolding show_from
show_from_enough zero g n acc p q = absurd (omega arith)
show_from_enough (suc f) zero n acc p q = absurd (omega arith)
show_from_enough (suc f) (suc g) n acc p q =
    ground (arith, show_from_enough f g (n / 10) (decimal_digit (n % 10) ∷ acc))

show_from-append :
    (f n : ℕ) (acc extra : String) → show_from f n (acc ⧺ extra) ≡ show_from f n acc ⧺ extra
unfolding show_from
show_from-append zero n acc extra = refl
show_from-append (suc f) n acc extra = elim (Bool-cases (ltb n 10)) [
  | inl last ↦ rw last (sym (cons-append (decimal_digit (n % 10)) acc extra))
  | inr more ↦ rw more (
      rw (← cons-append (decimal_digit (n % 10)) acc extra)
        (show_from-append f (n / 10) (decimal_digit (n % 10) ∷ acc) extra))
]

-- A number past nine is written as its tens and then its last digit.
pub show_ℕ-tens : (n : ℕ) → 10 ≤ n → show_ℕ n ≡ show_ℕ (n / 10) ⧺ (decimal_digit (n % 10) ∷ [])
unfolding show_ℕ show_from
show_ℕ-tens n h = ground (
  arith,
  show_from-append n (n / 10) "" (decimal_digit (n % 10) ∷ []),
  show_from_enough n (suc (n / 10)) (n / 10) "",
  nil-append (decimal_digit (n % 10) ∷ []),
)
