-- ===== src/Auth/Examples/Wire.antt =====
-- internal/auth/service.go: the token endpoint's answers and PKCE on concrete input.
use Prim.Native.String
use mathlib.Core.Path.{refl}
use claude_oauth_proxy.Base.{ℕ, zero, suc, ◌≡◌, List, [], ◌∷◌}
use claude_oauth_proxy.Core.{ok, Action}
use claude_oauth_proxy.Tokens.{IoError}
use claude_oauth_proxy.Auth.Pkce.{Pkce, encode, generate_pkce}
use claude_oauth_proxy.Auth.Pkce.Laws.{generate_pkce_lem}

-- So many bytes, each 7.
abbrev sevens : ℕ → List ℕ
sevens zero = []
sevens (suc n) = 7 ∷ sevens n

-- A reader that counts its calls.
abbrev reader : ℕ → Action ℕ IoError (List ℕ)
reader n calls = (ok (sevens n), suc calls)

generate_pkce_lem_example :
    (p : Pkce) × (generate_pkce reader (λ bs. bs) (λ s. sevens 32) 0 ≡ (ok p, 1))
    × (p.verifier ≡ encode (sevens 64))
    × (String.len p.verifier ≡ 86)
    × (p.challenge ≡ encode (sevens 32))
generate_pkce_lem_example =
    generate_pkce_lem reader 0 1 (sevens 64) (λ bs. bs) (λ s. sevens 32) refl refl
