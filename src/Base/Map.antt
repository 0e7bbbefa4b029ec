-- ===== src/Base/Map.antt =====
-- Go's maps from strings, as association lists without a second entry for a key.
use Prim.Native.String.{String}
use mathlib.Core.Path.{◌≡◌}
use mathlib.Core.List.{List, [], ◌∷◌}
use mathlib.Core.Option.{Option, none, some}
use native.Mathlib.Omega.{arith}
use text.Mathlib.TextEquality.{eq_iff}
use text.Mathlib.TextPositions.{eq_refl}
use aksagent_sandbox.Base.Tests.{◌==◌, if◌then◌else◌}

module _ {ℓ} {V : Type ℓ} where
  -- `v, ok := m[key]`
  unfoldable pub find : String → List (String × V) → Option V
  find key [] = none
  find key ((k, v) ∷ m) = if k == key then some v else find key m

  -- `delete(m, key)`
  unfoldable pub delete : String → List (String × V) → List (String × V)
  delete key [] = []
  delete key ((k, v) ∷ m) = let rest = delete key m in if k == key then rest else (k, v) ∷ rest

  -- `m[key] = v`
  unfoldable pub put : String → V → List (String × V) → List (String × V)
  unfolding delete
  put key v m = (key, v) ∷ delete key m

  pub find-delete :
      (key j : String) (m : List (String × V))
      → find j (delete key m) ≡ (if key == j then none else find j m)
  unfolding find delete
  find-delete key j [] = ground arith
  find-delete key j ((k, v) ∷ m) =
      ground (arith, find-delete key j m, eq_iff k key, eq_iff k j, eq_iff key j)

  pub find-put :
      (key j : String) (v : V) (m : List (String × V))
      → find j (put key v m) ≡ (if key == j then some v else find j m)
  unfolding find put
  find-put key j v m = ground (arith, find-delete key j m)

  pub find-put_self :
      (key : String) (v : V) (m : List (String × V)) → find key (put key v m) ≡ some v
  unfolding find put
  find-put_self key v m = rw (eq_refl key)

  pub find-delete_self : (key : String) (m : List (String × V)) → find key (delete key m) ≡ none
  find-delete_self key m = rw (find-delete key key m, eq_refl key)
