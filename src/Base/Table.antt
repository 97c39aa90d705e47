-- ===== src/Base/Table.antt =====
-- Go's maps from texts, as association lists.
use mathlib.Core.Path.{◌≡◌, refl}
use mathlib.Core.Option.{Option, none, some}
use mathlib.Core.List.{List, [], ◌∷◌}
use Prim.Native.String.{String}
use native.Mathlib.Omega.{arith}
use text.Mathlib.Text.{◌==◌}
use text.Mathlib.TextEquality.{eq_iff}
use claude_oauth_proxy.Base.Test.{if◌then◌else◌}

abbrev pub Dict {ℓ} : Type ℓ → Type ℓ
Dict V = List (String × V)

module _ {ℓ} {V : Type ℓ} where
  -- `m[key]`
  unfoldable pub get : String → Dict V → Option V
  get key [] = none
  get key ((k, v) ∷ m) = if k == key then some v else get key m

  -- `m[key] = v`
  unfoldable pub put : String → V → Dict V → Dict V
  put key v [] = (key, v) ∷ []
  put key v ((k, w) ∷ m) = if k == key then (k, v) ∷ m else (k, w) ∷ put key v m

  -- `delete(m, key)`
  unfoldable pub remove : String → Dict V → Dict V
  remove key [] = []
  remove key ((k, w) ∷ m) = let rest = remove key m in if k == key then rest else (k, w) ∷ rest

  pub get-put :
      (key j : String) (v : V) (m : Dict V)
      → get j (put key v m) ≡ (if key == j then some v else get j m)
  unfolding get put
  get-put key j v [] = refl
  get-put key j v ((i, w) ∷ m) =
      ground (arith, get-put key j v m, eq_iff key j, eq_iff i key, eq_iff i j)

  pub get-remove :
      (key j : String) (m : Dict V) → get j (remove key m) ≡ (if key == j then none else get j m)
  unfolding get remove
  get-remove key j [] = ground arith
  get-remove key j ((i, w) ∷ m) =
      ground (arith, get-remove key j m, eq_iff key j, eq_iff i key, eq_iff i j)
