-- ===== src/Runtime/ByteSize/Examples.antt =====
-- internal/runtime/config.go: byte sizes.
use mathlib.Core.Path.{refl}
use claude_oauth_proxy.Base.{true, false, pos, ◌≡◌, trim_space, arith}
use claude_oauth_proxy.Core.{ok}
use claude_oauth_proxy.Runtime.ByteSize.Numerals.{one, more, megabytes}
use claude_oauth_proxy.Runtime.ByteSize.{parse_byte_size}
use claude_oauth_proxy.Runtime.ByteSize.Laws.{parse_byte_size_exact}

parse_byte_size_exact_example : parse_byte_size " 10 mB" ≡ ok (pos 10485760)
unfolding trim_space
parse_byte_size_exact_example =
    parse_byte_size_exact " 10 mB" "10 " "10" "mB" 10 1048576 refl (refl, (refl, (refl, tt)))
      (megabytes false true) refl (more "1" 1 "0" (one "1" refl) refl) (omega arith) (omega arith)
