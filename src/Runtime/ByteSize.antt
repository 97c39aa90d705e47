-- ===== src/Runtime/ByteSize.antt =====
-- internal/runtime/config.go: `ParseByteSize`.
pub mod Numerals
pub mod Laws
pub mod Examples
use Prim.Native.String
use mathlib.Core.Option
use Prim.Native.Nat.{◌-◌}
use claude_oauth_proxy.Base.{
  ℕ, ℤ, pos, negsuc, zero, suc, ◌+◌, ◌*◌, mul64, fits_int64, is_positive, String, code, ◌⧺◌, Bool,
  true, false, ◌&&◌, not, Option, none, some, leb, nat_eq, if◌then◌else◌, is_empty, trim_space,
  lowers_to,
}
use claude_oauth_proxy.Core.{Result, ok, err}

-- What stands before a unit, written in small or capital ASCII letters: HasSuffix and TrimSuffix on the
-- text in capitals.
unfoldable pub cut_unit : String → String → Option String
cut_unit unit String.[] = if is_empty unit then some "" else none
cut_unit unit (String.◌∷◌ c s) =
    let rest = cut_unit unit s in
    if lowers_to (String.◌∷◌ c s) unit then some "" else Option.map (λ t. String.◌∷◌ c t) rest

-- strconv.ParseInt(s, 10, 64)
unfoldable pub parse_digits : ℕ → String → Option ℕ
parse_digits n String.[] = some n
parse_digits n (String.◌∷◌ c s) =
    let rest = parse_digits (n * 10 + (code c - 48)) s in
    if leb 48 (code c) && leb (code c) 57 then rest else none

abbrev digits_of : String → Option ℕ
digits_of s = if is_empty s then none else parse_digits 0 s

abbrev negate : ℕ → ℤ
negate zero = pos 0
negate (suc n) = negsuc n

abbrev in_range : Option ℤ → Option ℤ
in_range none = none
in_range (some z) = if fits_int64 z then some z else none

unfoldable pub parse_int : String → Option ℤ
unfolding parse_digits
parse_int String.[] = none
parse_int (String.◌∷◌ c s) =
    if nat_eq (code c) b'-'
    then in_range (Option.map negate (digits_of s))
    else if nat_eq (code c) b'+'
    then in_range (Option.map pos (digits_of s))
    else in_range (Option.map pos (digits_of (String.◌∷◌ c s)))

-- The number before a unit, and the unit's size.
abbrev or_unit : Option String → ℕ → String × ℕ → String × ℕ
or_unit none size other = other
or_unit (some s) size other = (s, size)

unfoldable pub split_unit : String → String × ℕ
unfolding cut_unit
split_unit s = or_unit (cut_unit "gb" s) 1073741824 (
    or_unit (cut_unit "mb" s) 1048576
      (or_unit (cut_unit "kb" s) 1024 (or_unit (cut_unit "b" s) 1 (s, 1))))

unfoldable pub sized : ℕ → Option ℤ → Result String ℤ
sized size none = err "invalid byte size"
sized size (some n) =
    if not (is_positive n) then err "byte size must be positive" else ok (mul64 n (pos size))

unfoldable pub parse_byte_size : String → Result String ℤ
unfolding split_unit sized parse_int
parse_byte_size raw =
    let s = trim_space raw in
    if is_empty s
    then err "empty value"
    else sized (split_unit s).1 (parse_int (trim_space (split_unit s).0))
