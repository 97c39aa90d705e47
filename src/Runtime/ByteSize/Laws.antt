-- ===== src/Runtime/ByteSize/Laws.antt =====
-- internal/runtime/config.go: what `ParseByteSize` gives for a number with a unit.
use mathlib.Core.Path.{ap, ◌∙◌}
use claude_oauth_proxy.Base.{
  ◌^◌, ℕ, pos, ◌≡◌, ◌<◌, ◌*◌, mul64, mul64_of_small, String, ◌⧺◌, false, some, arith, trim_space,
  is_empty,
}
use claude_oauth_proxy.Core.{ok}
use claude_oauth_proxy.Runtime.ByteSize.Numerals.{
  IsNumeral, IsUnit, Letterless, IsNumeral-parse_int, IsUnit-below, written-is_empty,
  split_unit-IsUnit,
}
use claude_oauth_proxy.Runtime.ByteSize.{parse_byte_size, parse_int, split_unit, sized}

module _ (raw : String) (n : ℕ) (written : is_empty (trim_space raw) ≡ false)
    (parsed : parse_int (trim_space (split_unit (trim_space raw)).0) ≡ some (pos n))
    (positive : 0 < n) where
  parse_byte_size-mul64 :
      parse_byte_size raw ≡ ok (mul64 (pos n) (pos (split_unit (trim_space raw)).1))
  unfolding parse_byte_size sized
  parse_byte_size-mul64 = rw (written, parsed) (ground arith)

-- For a text that is, but for space around it, a decimal numeral of a positive number before an
-- optional unit B, KB, MB or GB in capital or small letters, perhaps with space before the unit,
-- ParseByteSize gives the number times 1, 2^10, 2^20 or 2^30, as long as that is below 2^63.
pub parse_byte_size_exact :
    (raw before numeral unit : String) (n size : ℕ)
    → trim_space raw ≡ before ⧺ unit
    → Letterless before
    → IsUnit unit size
    → trim_space before ≡ numeral
    → IsNumeral numeral n
    → 0 < n
    → n * size < 2 ^ 63
    → parse_byte_size raw ≡ ok (pos (n * size))
parse_byte_size_exact raw before numeral unit n size e low u t k positive small =
    let split : split_unit (trim_space raw) ≡ (before, size) =
      rw e (split_unit-IsUnit before u low) in
    let parsed : parse_int (trim_space (split_unit (trim_space raw)).0) ≡ some (pos n) =
      rw (split, t) (IsNumeral-parse_int k (IsUnit-below u n small)) in
    let written : is_empty (trim_space raw) ≡ false = rw e (written-is_empty before unit t k) in
    parse_byte_size-mul64 raw n written parsed positive
    ∙ rw split (ap ok (mul64_of_small n size small))
