-- ===== src/Lifecycle/Quota/Retry.antt =====
-- internal/lifecycle/quota.go, `retry` and the three methods of QuotaManager. The API server,
-- the clock of the context and the other writers are behind `QuotaStore`, a record of calls that
-- carry the state `W` of the world. A call of the model is about one quota object (one namespace
-- and name).
pub mod Atomic
pub mod Converge
pub mod Calls
pub mod Trace
use aksagent_sandbox.Base.{
  ℕ, zero, suc, Bool, true, false, Option, none, some, ◌==◌, if◌then◌else◌, eqb, Result, ok, err,
  String,
}
use aksagent_sandbox.Lifecycle.Quota.{
  UserQuota, ReservationRequest, StoreError, not_found, conflict, other, QuotaError, id_required,
  store_required, context_done, store_failed, not_converged, Mutation, validate_reservation,
  validate_reconcile, reserve_mutation, reconcile_mutation, release_mutation,
}

pub record QuotaStore (W : Type 0) : Type 0 where
  -- `ctx.Err()`
  pub ctx_err : W → Option ℕ × W
  -- `m.Store.Get`, which returns a copy
  pub get : W → Result StoreError UserQuota × W
  -- `m.Store.UpdateStatus`
  pub update_status : UserQuota → W → Option StoreError × W
  -- the `select` between `ctx.Done()` and a timer of 100 ms
  pub wait : W → Option ℕ × W

-- One pass of the loop returns from the function, or goes on with the error that it keeps.
pub data Pass (W : Type 0) : Type 0 where
  returned : Option QuotaError → W → Pass W
  again : StoreError → W → Pass W

module _ {W : Type 0} (store : QuotaStore W) where
  committed : Option StoreError × W → Pass W
  committed (none, w) = returned none w
  committed (some conflict, w) = again conflict w
  committed (some not_found, w) = returned (some (store_failed not_found)) w
  committed (some (other n), w) = returned (some (store_failed (other n))) w

  write_back : Result QuotaError (UserQuota × Bool) → W → Pass W
  unfolding committed
  write_back (err e) w = returned (some e) w
  write_back (ok (q, false)) w = returned none w
  write_back (ok (q, true)) w = committed (store.update_status q w)

  waited : Option ℕ × W → Pass W
  waited (some c, w) = returned (some (context_done c)) w
  waited (none, w) = again not_found w

  mutate_read : Mutation → Result StoreError UserQuota × W → Pass W
  unfolding write_back waited
  mutate_read mutate (ok q, w) = write_back (mutate q) w
  mutate_read mutate (err not_found, w) = waited (store.wait w)
  mutate_read mutate (err conflict, w) = returned (some (store_failed conflict)) w
  mutate_read mutate (err (other n), w) = returned (some (store_failed (other n))) w

  checked : Mutation → Option ℕ × W → Pass W
  unfolding mutate_read
  checked mutate (some c, w) = returned (some (context_done c)) w
  checked mutate (none, w) = mutate_read mutate (store.get w)

  -- The body of the loop.
  unfoldable pub pass : Mutation → W → Pass W
  unfolding checked
  pass mutate w = checked mutate (store.ctx_err w)

  pub retry_loop : Mutation → ℕ → ℕ → Option StoreError → W → Option QuotaError × W
  retry_loop mutate attempts zero last w = (some (not_converged attempts last), w)
  retry_loop mutate attempts (suc left) last w = elim (pass mutate w) [
    | returned e w' ↦ (e, w')
    | again e w' ↦ retry_loop mutate attempts left (some e) w'
  ]

-- `m.Store` may be nil; `m.MaxAttempts` that is not positive is given as 0.
pub record QuotaManager (W : Type 0) : Type 0 where
  pub store : Option (QuotaStore W)
  pub max_attempts : ℕ
  pub now : ℕ

pub attempts_of : ℕ → ℕ
attempts_of n = if eqb n 0 then 8 else n

module _ {W : Type 0} where
  with_store : Option (QuotaStore W) → ℕ → Mutation → W → Option QuotaError × W
  unfolding retry_loop pass attempts_of
  with_store none n mutate w = (some store_required, w)
  with_store (some store) n mutate w =
      retry_loop store mutate (attempts_of n) (attempts_of n) none w

  pub retry : QuotaManager W → Mutation → W → Option QuotaError × W
  unfolding with_store
  retry m mutate w = with_store m.store m.max_attempts mutate w

  -- A check that fails comes before any call of the store.
  after_check : Option QuotaError → QuotaManager W → Mutation → W → Option QuotaError × W
  after_check (some e) m mutate w = (some e, w)
  after_check none m mutate w = retry m mutate w

  unfoldable pub reserve : QuotaManager W → ReservationRequest → W → Option QuotaError × W
  unfolding after_check retry validate_reservation reserve_mutation
  reserve m request w =
      after_check (validate_reservation request) m (reserve_mutation m.now request) w

  unfoldable pub reconcile_reservation :
      QuotaManager W → ReservationRequest → W → Option QuotaError × W
  unfolding after_check retry validate_reconcile reconcile_mutation
  reconcile_reservation m request w =
      after_check (validate_reconcile request) m (reconcile_mutation m.now request) w

  unfoldable pub release : QuotaManager W → String → W → Option QuotaError × W
  unfolding after_check retry release_mutation
  release m id w =
      after_check (if id == "" then some id_required else none) m (release_mutation id) w
