-- ===== src/Operator/Names/Bounds.antt =====
-- internal/operator/render.go: bounds of names.
use aksagent_sandbox.Base.{ℕ, zero, suc, ◌+◌, ◌≤◌, String, [], ◌∷◌, arith, length, length-append}
use aksagent_sandbox.Base.Bytes.{Bytes, codes}
use aksagent_sandbox.Operator.Objects.{DevSandbox}
use aksagent_sandbox.Operator.Names.{first_bytes, resource_name}

length-first_bytes : (n : ℕ) (cs : Bytes) → length (first_bytes n cs) ≤ n
unfolding first_bytes
length-first_bytes zero cs = omega arith
length-first_bytes (suc n) [] = omega arith
length-first_bytes (suc n) (c ∷ cs) = omega (arith, length-first_bytes n cs)

-- The name of a resource has at most 48 characters after its prefix.
pub resource_name_bound :
    (prefix : String) (s : DevSandbox)
    → length (resource_name prefix s) ≤ length (codes prefix) + 48
unfolding resource_name
resource_name_bound prefix s =
    omega (arith, length-append (codes prefix) _, length-first_bytes 48 _)
