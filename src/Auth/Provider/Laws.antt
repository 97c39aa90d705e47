-- ===== src/Auth/Provider/Laws.antt =====
-- internal/auth/service.go: when the tokens of a reply expire.
use claude_oauth_proxy.Base.{ℕ, ℤ, pos, ◌+ℤ◌, ◌≡◌, ◌≤◌, ◌*◌, arith, mul64_of_small, ap}
use claude_oauth_proxy.Tokens.{Time}
use claude_oauth_proxy.Auth.Provider.{expiry}

-- A token that lives for at most 9223372036 seconds expires exactly that many seconds from now.
pub expiry_exact :
    (now : Time) (n : ℕ) → n ≤ 9223372036 → expiry now (pos n) ≡ now +ℤ pos (n * 1000000000)
unfolding expiry
expiry_exact now n h = ap (λ (d : ℤ). now +ℤ d) (mul64_of_small n 1000000000 (omega arith))
