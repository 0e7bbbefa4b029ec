-- ===== src/Base/Outcome.antt =====
-- Results of calls that may fail: Go's `(T, error)` pairs, where a value is read only if the
-- error is nil.
use mathlib.Core.Path.{◌≡◌}
use mathlib.Core.Bool.{Bool, true, false}

pub data Result {ℓ} (E A : Type ℓ) : Type ℓ where
  ok : A → Result E A
  err : E → Result E A

-- `if err != nil { return err }`
infixl 5 ◌>>=◌ ◌>>◌
abbrev pub ◌>>=◌ {ℓ} : {E A B : Type ℓ} → Result E A → (A → Result E B) → Result E B
err e >>= k = err e
ok a >>= k = k a

abbrev pub ◌>>◌ {ℓ} : {E B : Type ℓ} → Result E Unit → Result E B → Result E B
err e >> k = err e
ok _ >> k = k

-- `if failed { return e }`
abbrev pub return_if {ℓ} : {E : Type ℓ} → Bool → E → Result E Unit
return_if false e = ok tt
return_if true e = err e

pub ok_injective {ℓ} : {E A : Type ℓ} {a b : A} → ◌≡◌ {A = Result E A} (ok a) (ok b) → a ≡ b
ok_injective h = cc
