-- ===== src/Operator/Names.antt =====
-- internal/operator/render.go and reconciler.go: names, labels and sizes. Texts that become names are
-- ASCII; the digest of crypto/sha256 is a parameter.
pub mod Bounds
use aksagent_sandbox.Base.{
  ℕ, suc, zero, ◌+◌, ◌-◌, ◌*◌, ◌/◌, ◌≤◌, ◌<◌, ◌≡◌, refl, String, Bool, true, false, ◌&&◌, ◌||◌,
  Option, none, some, List, [], ◌∷◌, ◌++◌, ◌==◌, leb, ltb, eqb, if◌then◌else◌, length, arith, map,
  length-append,
}
use aksagent_sandbox.Base.Int.{ℤ, pos, negsuc, int64, ◌+ℤ◌, ◌-ℤ◌}
use aksagent_sandbox.Base.Bytes.{Bytes, codes}
use aksagent_sandbox.Operator.Objects.{DevSandbox, Labels}

unfoldable pub lower : ℕ → ℕ
lower c = if leb 65 c && leb c 90 then c + 32 else c

dashed : ℕ → ℕ
dashed c = if eqb c 95 then 45 else c

-- `s[:n]` where the text is longer, and the text otherwise.
unfoldable pub first_bytes : ℕ → Bytes → Bytes
first_bytes zero cs = []
first_bytes (suc n) [] = []
first_bytes (suc n) (c ∷ cs) = c ∷ first_bytes n cs

-- resourceName
unfoldable pub resource_name : String → DevSandbox → Bytes
unfolding first_bytes lower dashed
resource_name prefix s =
    let uid = if s.uid == "" then map lower (codes s.name) else map lower (codes s.uid) in
    codes prefix ++ first_bytes 48 (map dashed uid)

abbrev pub service_account_name : DevSandbox → Bytes
service_account_name s = resource_name "devsandbox-" s

abbrev pub workspace_claim_name : DevSandbox → Bytes
workspace_claim_name s = resource_name "workspace-" s

abbrev pub upstream_sandbox_name : DevSandbox → Bytes
upstream_sandbox_name s = resource_name "devsandbox-" s

abbrev pub activity_lease_name : DevSandbox → Bytes
activity_lease_name s = resource_name "activity-" s

-- labelsFor
abbrev pub labels_for : DevSandbox → Labels
labels_for s =
    ("devsandbox.io/managed", "true")
    ∷ ("devsandbox.io/sandbox", s.name)
    ∷ ("devsandbox.io/sandbox-uid", s.uid)
    ∷ []

-- reservationID, with the fallback of an object that is not stored.
unfoldable pub reservation_id : (String → String → String) → DevSandbox → String
reservation_id joined s = if s.uid == "" then joined s.namespace s.name else s.uid

clean : ℕ → ℕ
clean c = if (leb 97 c && leb c 122) || (leb 48 c && leb c 57) || eqb c 45 then c else 45

trim_dashes : Bytes → Bytes
trim_dashes [] = []
trim_dashes (c ∷ cs) = let rest = trim_dashes cs in if eqb c 45 then rest else c ∷ cs

drop_dashes : Bytes → Bytes
drop_dashes [] = []
drop_dashes (c ∷ cs) = elim (drop_dashes cs) [
  | [] ↦ if eqb c 45 then [] else c ∷ []
  | d ∷ ds ↦ c ∷ d ∷ ds
]

or_unknown : Bytes → Bytes
or_unknown [] = codes "unknown"
or_unknown (c ∷ cs) = c ∷ cs

-- quotaNameForUser, with the hexadecimal digits of the digest.
unfoldable pub quota_name_for_user : (String → Bytes) → String → Bytes
unfolding lower clean trim_dashes drop_dashes or_unknown first_bytes
quota_name_for_user digest user =
    codes "user-"
    ++ (first_bytes 40 (or_unknown (trim_dashes (drop_dashes (map clean (map lower (codes user))))))
        ++ 45 ∷ digest user)

abbrev pub gib : ℕ
gib = 1024 * 1024 * 1024

-- Go's division by `gib`, which rounds toward zero.
in_gib : ℤ → ℤ
in_gib (pos n) = pos (n / gib)
in_gib (negsuc n) = pos 0 -ℤ pos (suc n / gib)

-- storageGiB of a quantity of that many bytes, in int64.
unfoldable pub gib_of : Option ℕ → Option ℤ
unfolding in_gib
gib_of none = none
gib_of (some bytes) = some (in_gib (int64 (int64 (pos bytes +ℤ pos gib) -ℤ pos 1)))
