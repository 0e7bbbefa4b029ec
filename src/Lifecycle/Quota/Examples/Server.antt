-- ===== src/Lifecycle/Quota/Examples/Server.antt =====
-- An API server that holds one quota object and its versions, and a world where other writers are
-- idle and the context never ends: the version of an object is its place in the history.
use mathlib.Core.List.{Memᴰ}
use mathlib.Core.Path.{subst}
use aksagent_sandbox.Base.{
  ℕ, suc, ◌<◌, ◌≡◌, refl, sym, ap, ◌∙◌, inl, inr, Option, none, some, List, [], ◌∷◌, ◌++◌, arith,
  length, eqb, if◌then◌else◌, Result, ok, err, Bool-cases, ok_injective,
}
use aksagent_sandbox.Lifecycle.Quota.{UserQuota, StoreError, not_found, conflict}
use aksagent_sandbox.Lifecycle.Quota.Retry.{QuotaStore}
use aksagent_sandbox.Lifecycle.Quota.Retry.Atomic.{ApiServer}

abbrev pub numbered : List UserQuota → List UserQuota
numbered [] = []
numbered (q ∷ qs) = record q { resource_version = length qs } ∷ numbered qs

abbrev pub read : List UserQuota → Result StoreError UserQuota × List UserQuota
read [] = (err not_found, [])
read (q ∷ qs) = (ok (record q { resource_version = length qs }), q ∷ qs)

abbrev pub write : UserQuota → List UserQuota → Option StoreError × List UserQuota
write n [] = (some not_found, [])
write n (q ∷ qs) =
    if eqb n.resource_version (length qs) then (none, n ∷ q ∷ qs) else (some conflict, q ∷ qs)

abbrev pub memory_store : QuotaStore (List UserQuota)
memory_store = record {
  ctx_err = λ w. (none, w);
  get = read;
  update_status = write;
  wait = λ w. (none, w);
}

numbered_below :
    (q : UserQuota) (w : List UserQuota) → Memᴰ q (numbered w) → q.resource_version < length w
numbered_below q [] m = elim m [ ]
numbered_below q (x ∷ w) (Memᴰ.head e) = rw e (omega arith)
numbered_below q (x ∷ w) (Memᴰ.tail m) = omega (arith, numbered_below q w m)

pub numbered_unique :
    (w : List UserQuota) (p q : UserQuota)
    → Memᴰ p (numbered w)
    → Memᴰ q (numbered w)
    → p.resource_version ≡ q.resource_version
    → p ≡ q
numbered_unique [] p q m n h = elim m [ ]
numbered_unique (x ∷ w) p q (Memᴰ.head e) (Memᴰ.head f) h = e ∙ sym f
numbered_unique (x ∷ w) p q (Memᴰ.head e) (Memᴰ.tail n) h =
    absurd (omega (arith, numbered_below q w n, ap (λ (r : UserQuota). r.resource_version) e))
numbered_unique (x ∷ w) p q (Memᴰ.tail m) (Memᴰ.head f) h =
    absurd (omega (arith, numbered_below p w m, ap (λ (r : UserQuota). r.resource_version) f))
numbered_unique (x ∷ w) p q (Memᴰ.tail m) (Memᴰ.tail n) h = numbered_unique w p q m n h

pub read_stored :
    (w w' : List UserQuota) (q : UserQuota) → read w ≡ (ok q, w') → Memᴰ q (numbered w')
read_stored [] w' q h = cc
read_stored (x ∷ w) w' q h =
    subst (λ v. Memᴰ q (numbered v)) (ap (λ r. r.1) h)
      (Memᴰ.head (sym (ok_injective (ap (λ r. r.0) h))))

pub write_newest :
    (w w' : List UserQuota) (q : UserQuota)
    → write q w ≡ (none, w')
    → (p : UserQuota) × (rest : List UserQuota) × (v : ℕ) × (numbered w'
        ≡ record q { resource_version = v } ∷ p ∷ rest)
      × (p.resource_version ≡ q.resource_version)
      × ((fresh : List UserQuota) × (p ∷ rest ≡ fresh ++ numbered w))
write_newest [] w' q h = cc
write_newest (x ∷ w) w' q h = elim (Bool-cases (eqb q.resource_version (length w))) [
  | inl same ↦ (
    record x { resource_version = length w },
    numbered w,
    suc (length w),
    rw (sym (ap (λ r. r.1) (rw same at h))) refl,
    ground arith,
    ([], refl),
  )
  | inr stale ↦ cc (rw stale at h)
]

abbrev pub memory_server : ApiServer memory_store
memory_server = record {
  history = numbered;
  unique = numbered_unique;
  get_stored = read_stored;
  update_newest = write_newest;
}
