-- ===== src/Lifecycle/Quota/Retry/Calls.antt =====
-- internal/lifecycle/quota.go: the three methods of QuotaManager act through `retry`.
use aksagent_sandbox.Base.{ℕ, arith, ◌≡◌, refl, Option, none, some}
use aksagent_sandbox.Lifecycle.Quota.{
  ReservationRequest, QuotaError, Mutation, validate_reservation, validate_reconcile,
  reserve_mutation, reconcile_mutation,
}
use aksagent_sandbox.Lifecycle.Quota.Retry.{
  QuotaStore, QuotaManager, retry, attempts_of, after_check, with_store, reserve,
  reconcile_reservation,
}
use aksagent_sandbox.Lifecycle.Quota.Retry.Atomic.{ApiServer, KeepsVersion, Acted, loop-Acted}

reserve-KeepsVersion : (now : ℕ) (r : ReservationRequest) → KeepsVersion (reserve_mutation now r)
unfolding reserve_mutation
reserve-KeepsVersion now r q q' c h = ground arith

reconcile-KeepsVersion :
    (now : ℕ) (r : ReservationRequest) → KeepsVersion (reconcile_mutation now r)
unfolding reconcile_mutation
reconcile-KeepsVersion now r q q' c h = ground arith

module _ {W : Type 0} (store : QuotaStore W) (server : ApiServer store) where
  open server use {history}

  with_store-Acted :
      (mutate : Mutation)
      → KeepsVersion mutate
      → (s : Option (QuotaStore W)) (n : ℕ) (w w' : W) → s ≡ some store
      → with_store s n mutate w ≡ (none, w')
      → Acted mutate (history w')
  unfolding with_store
  with_store-Acted mutate keeps s n w w' e h =
      loop-Acted store server mutate keeps (attempts_of n) (attempts_of n) none w w'
        (rw (e, with_store) at h)

  -- A call that returns nil passed its check, and acted.
  call-Acted :
      (mutate : Mutation)
      → KeepsVersion mutate
      → (check : Option QuotaError) (m : QuotaManager W) (w w' : W) → m.store ≡ some store
      → after_check check m mutate w ≡ (none, w')
      → (check ≡ none) × Acted mutate (history w')
  unfolding after_check retry
  call-Acted mutate keeps (some e) m w w' s h = cc
  call-Acted mutate keeps none m w w' s h =
      (refl, with_store-Acted mutate keeps m.store m.max_attempts w w' s h)

  module _ (m : QuotaManager W) (here : m.store ≡ some store) (w w' : W) where
    pub reserve-Acted :
        (r : ReservationRequest)
        → reserve m r w ≡ (none, w')
        → (validate_reservation r ≡ none) × Acted (reserve_mutation m.now r) (history w')
    unfolding reserve
    reserve-Acted r h =
        call-Acted (reserve_mutation m.now r) (reserve-KeepsVersion m.now r)
          (validate_reservation r) m w w' here h

    pub reconcile-Acted :
        (r : ReservationRequest)
        → reconcile_reservation m r w ≡ (none, w')
        → (validate_reconcile r ≡ none) × Acted (reconcile_mutation m.now r) (history w')
    unfolding reconcile_reservation
    reconcile-Acted r h =
        call-Acted (reconcile_mutation m.now r) (reconcile-KeepsVersion m.now r)
          (validate_reconcile r) m w w' here h
