-- ===== src/Lifecycle/Quota/Retry/Trace.antt =====
-- internal/lifecycle/quota.go, `retry`: what the calls were that end in a nil result.
use mathlib.Core.Path.{subst}
use aksagent_sandbox.Base.{
  String, if◌then◌else◌, ◌==◌, ℕ, zero, suc, ◌≡◌, refl, inl, inr, Bool, true, false, Option, none,
  some, Result, ok, err,
}
use aksagent_sandbox.Lifecycle.Quota.{
  UserQuota, QuotaError, StoreError, not_found, conflict, other, Mutation, release_mutation,
  id_required,
}
use aksagent_sandbox.Lifecycle.Quota.Retry.{
  QuotaStore, QuotaManager, Pass, returned, again, pass, retry_loop, checked, mutate_read,
  write_back, committed, waited, retry, release, with_store, after_check, attempts_of,
}
use aksagent_sandbox.Lifecycle.Quota.Retry.Atomic.{Pass-cases}

module _ {W : Type 0} (store : QuotaStore W) where
  -- Calls of the store that lead from one world to another.
  pub data Reaches (w : W) : W → Type 0 where
    here : Reaches w w
    asked : {w1 w2 : W} (r : Option ℕ) → Reaches w w1 → store.ctx_err w1 ≡ (r, w2) → Reaches w w2
    read :
        {w1 w2 : W} (r : Result StoreError UserQuota)
        → Reaches w w1
        → store.get w1 ≡ (r, w2)
        → Reaches w w2
    wrote :
        {w1 w2 : W} (q : UserQuota) (r : Option StoreError)
        → Reaches w w1
        → store.update_status q w1 ≡ (r, w2)
        → Reaches w w2
    slept : {w1 w2 : W} (r : Option ℕ) → Reaches w w1 → store.wait w1 ≡ (r, w2) → Reaches w w2

  -- The calls from `w` to `w'` ended with a read of an object that the mutation leaves alone, or with
  -- such a read and an accepted write of what the mutation makes of the object.
  pub data Concluded (mutate : Mutation) (w w' : W) : Type 0 where
    left_alone :
        (w1 : W) (q q' : UserQuota)
        → Reaches w w1
        → store.get w1 ≡ (ok q, w')
        → mutate q ≡ ok (q', false)
        → Concluded mutate w w'
    written :
        (w1 w2 : W) (q q' : UserQuota)
        → Reaches w w1
        → store.get w1 ≡ (ok q, w2)
        → mutate q ≡ ok (q', true)
        → store.update_status q' w2 ≡ (none, w')
        → Concluded mutate w w'

  module _ (mutate : Mutation) (w : W) where
    abbrev Came : Pass W → Type 0
    Came (returned none w') = Concluded mutate w w'
    Came (returned (some e) w') = Unit {0}
    Came (again e w') = Reaches w w'

    committed-Came :
        (q q' : UserQuota) (w1 w2 : W) (p : Option StoreError × W)
        → Reaches w w1
        → store.get w1 ≡ (ok q, w2)
        → mutate q ≡ ok (q', true)
        → store.update_status q' w2 ≡ p
        → Came (committed store p)
    unfolding committed
    committed-Came q q' w1 w2 (none, w3) r g e u = written w1 w2 q q' r g e u
    committed-Came q q' w1 w2 (some conflict, w3) r g e u =
        wrote q' (some conflict) (read (ok q) r g) u
    committed-Came q q' w1 w2 (some not_found, w3) r g e u = tt
    committed-Came q q' w1 w2 (some (other n), w3) r g e u = tt

    write_back-Came :
        (q : UserQuota) (w1 w2 : W) (m : Result QuotaError (UserQuota × Bool))
        → Reaches w w1
        → store.get w1 ≡ (ok q, w2)
        → mutate q ≡ m
        → Came (write_back store m w2)
    unfolding write_back
    write_back-Came q w1 w2 (err e) r g h = tt
    write_back-Came q w1 w2 (ok (q', false)) r g h = left_alone w1 q q' r g h
    write_back-Came q w1 w2 (ok (q', true)) r g h =
        committed-Came q q' w1 w2 (store.update_status q' w2) r g h refl

    waited-Came :
        (w1 : W) (p : Option ℕ × W) → Reaches w w1 → store.wait w1 ≡ p → Came (waited store p)
    unfolding waited
    waited-Came w1 (some c, w2) r h = tt
    waited-Came w1 (none, w2) r h = slept none r h

    mutate_read-Came :
        (w1 : W) (p : Result StoreError UserQuota × W)
        → Reaches w w1
        → store.get w1 ≡ p
        → Came (mutate_read store mutate p)
    unfolding mutate_read
    mutate_read-Came w1 (ok q, w2) r h = write_back-Came q w1 w2 (mutate q) r h refl
    mutate_read-Came w1 (err not_found, w2) r h =
        waited-Came w2 (store.wait w2) (read (err not_found) r h) refl
    mutate_read-Came w1 (err conflict, w2) r h = tt
    mutate_read-Came w1 (err (other n), w2) r h = tt

    checked-Came :
        (w1 : W) (p : Option ℕ × W)
        → Reaches w w1
        → store.ctx_err w1 ≡ p
        → Came (checked store mutate p)
    unfolding checked
    checked-Came w1 (some c, w2) r h = tt
    checked-Came w1 (none, w2) r h = mutate_read-Came w2 (store.get w2) (asked none r h) refl

    pass-Came : (w1 : W) → Reaches w w1 → Came (pass store mutate w1)
    unfolding pass
    pass-Came w1 r = checked-Came w1 (store.ctx_err w1) r refl

    loop-Concluded :
        (n left : ℕ) (last : Option StoreError) (w1 w' : W)
        → Reaches w w1
        → retry_loop store mutate n left last w1 ≡ (none, w')
        → Concluded mutate w w'
    unfolding retry_loop
    loop-Concluded n zero last w1 w' r h = cc
    loop-Concluded n (suc left) last w1 w' r h = elim (Pass-cases (pass store mutate w1)) [
      | inl (e, w2, p) ↦
          let k : (e, w2) ≡ (none, w') = rw (p, retry_loop) at h in
          let came : Came (returned e w2) = rw p at (pass-Came w1 r) in
          subst (λ (x : Option QuotaError × W). Came (returned x.0 x.1)) k came
      | inr (e, w2, p) ↦
          let came : Reaches w w2 = rw p at (pass-Came w1 r) in
          loop-Concluded n left (some e) w2 w' came (rw (p, retry_loop) at h)
    ]

    with_store-Concluded :
        (s : Option (QuotaStore W)) (n : ℕ) (w' : W)
        → s ≡ some store
        → with_store s n mutate w ≡ (none, w')
        → Concluded mutate w w'
    unfolding with_store
    with_store-Concluded s n w' e h =
        loop-Concluded (attempts_of n) (attempts_of n) none w w' here (rw (e, with_store) at h)

    call-Concluded :
        (check : Option QuotaError) (m : QuotaManager W) (w' : W)
        → m.store ≡ some store
        → after_check check m mutate w ≡ (none, w')
        → Concluded mutate w w'
    unfolding after_check retry
    call-Concluded (some e) m w' s h = cc
    call-Concluded none m w' s h = with_store-Concluded m.store m.max_attempts w' s h

  -- Release that returns nil ended in this way.
  pub release-Concluded :
      (m : QuotaManager W) (id : String) (w w' : W)
      → m.store ≡ some store
      → release m id w ≡ (none, w')
      → Concluded (release_mutation id) w w'
  unfolding release
  release-Concluded m id w w' s h =
      call-Concluded (release_mutation id) w (if id == "" then some id_required else none) m w' s h
