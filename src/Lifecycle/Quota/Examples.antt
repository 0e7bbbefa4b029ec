-- ===== src/Lifecycle/Quota/Examples.antt =====
-- Reservations of one user against the memory server of Server.antt.
mod Server
use mathlib.Core.List.{Memᴰ}
use aksagent_sandbox.Base.{
  ℕ, ◌+◌, ◌-◌, ◌≤◌, ◌<◌, ◌≡◌, refl, ap, eqb, if◌then◌else◌, Bool-cases, inl, inr, String, Bool,
  true, false, Option, none, some, List, [], ◌∷◌, ok, err, arith, All,
}
use aksagent_sandbox.Base.Int.{ℤ, pos, negsuc, ◌<ℤ◌, int32, int64, ◌+ℤ◌, ◌-ℤ◌}
use aksagent_sandbox.Lifecycle.Quota.{
  QuotaLimits, UserQuota, QuotaReservation, ReservationRequest, quota_exceeded, conflict,
  StoreError, not_converged, reserve_mutation, reconcile_mutation, release_mutation,
  find_reservation, max32, max64, is_zero_request, same_values, Mutation, validate_reservation,
  validate_reconcile,
}
use aksagent_sandbox.Lifecycle.Quota.Totals.{IsAccounted, IsWithinLimits, Distinct}
use aksagent_sandbox.Lifecycle.Quota.Accounts.{reserve_mutation-IsAccounted}
use aksagent_sandbox.Lifecycle.Quota.Moves.{reconcile_mutation-IsAccounted}
use aksagent_sandbox.Lifecycle.Quota.Releases.{release_mutation-IsAccounted}
use aksagent_sandbox.Lifecycle.Quota.Records.{
  IsListed, IsRecorded, reserve_on_record, reconcile_on_record,
}
use aksagent_sandbox.Lifecycle.Quota.Limits.{reserve_overflow, reconcile_release_refused}
use aksagent_sandbox.Lifecycle.Quota.Retry.{
  QuotaStore, QuotaManager, pass, retry_loop, returned, again, reserve, reconcile_reservation,
  release,
}
use aksagent_sandbox.Lifecycle.Quota.Retry.Converge.{Rivals, IsSettled, retry_loop-IsSettled}
use aksagent_sandbox.Lifecycle.Quota.Retry.Trace.{Reaches}
use aksagent_sandbox.Lifecycle.Quota.Released.{IsReleased, release-IsReleased}
use Server.{memory_store, memory_server, numbered}

abbrev limits : QuotaLimits
limits = record { active = pos 3; retained = pos 10; storage_gib = pos 200 }

abbrev empty_quota : UserQuota
empty_quota = record {
  resource_version = 0;
  github_user_id = "42";
  limits = limits;
  reserved_active = pos 0;
  retained = pos 0;
  provisioned_storage_gib = pos 0;
  reservations = [];
}

abbrev running : ReservationRequest
running = record {
  id = "a";
  sandbox_name = "dev";
  active = pos 1;
  retained = pos 1;
  storage_gib = pos 20;
}

abbrev stopped : ReservationRequest
stopped = record running { active = pos 0 }

abbrev listed : QuotaReservation
listed = record {
  id = "a";
  sandbox_name = "dev";
  active = pos 1;
  retained = pos 1;
  storage_gib = pos 20;
  created_at = 5;
}

abbrev one_quota : UserQuota
one_quota = record empty_quota {
  reserved_active = pos 1;
  retained = pos 1;
  provisioned_storage_gib = pos 20;
  reservations = listed ∷ [];
}

one_quota-IsAccounted : IsAccounted one_quota
unfolding ◌+ℤ◌ find_reservation
one_quota-IsAccounted = ground arith

reserve_mutation-IsAccounted_example :
    IsAccounted one_quota × (true ≡ true → IsWithinLimits one_quota)
unfolding reserve_mutation int32 int64 ◌+ℤ◌ find_reservation validate_reservation
reserve_mutation-IsAccounted_example =
    reserve_mutation-IsAccounted 5 running empty_quota one_quota true refl (omega arith)
      (ground arith) refl

reconcile_mutation-IsAccounted_example :
    let q = record one_quota {
      reserved_active = pos 0;
      reservations = record listed { active = pos 0 } ∷ [];
    } in
    IsAccounted q × (true ≡ true → IsWithinLimits q)
unfolding reconcile_mutation int32 int64 ◌+ℤ◌ ◌-ℤ◌ validate_reconcile
reconcile_mutation-IsAccounted_example =
    reconcile_mutation-IsAccounted 9 stopped one_quota _ true refl (omega arith)
      one_quota-IsAccounted refl

release_mutation-IsAccounted_example : IsAccounted empty_quota
unfolding release_mutation int32 int64 ◌-ℤ◌
release_mutation-IsAccounted_example =
    release_mutation-IsAccounted "a" one_quota empty_quota true one_quota-IsAccounted refl

abbrev manager : QuotaManager (List UserQuota)
manager = record { store = some memory_store; max_attempts = 0; now = 5 }

reserve_on_record_example :
    (q : UserQuota) × Memᴰ q (numbered (one_quota ∷ empty_quota ∷ [])) × IsListed "a" q.reservations
unfolding reserve int32 int64 ◌+ℤ◌
reserve_on_record_example =
    reserve_on_record memory_store memory_server manager refl (empty_quota ∷ [])
      (one_quota ∷ empty_quota ∷ []) running refl

abbrev stopped_quota : UserQuota
stopped_quota = record one_quota {
  reserved_active = pos 0;
  reservations = record listed { active = pos 0 } ∷ [];
}

reconcile_on_record_example :
    (q : UserQuota) × Memᴰ q (numbered (stopped_quota ∷ one_quota ∷ []))
    × IsRecorded stopped q.reservations
unfolding reconcile_reservation int32 int64 ◌+ℤ◌ ◌-ℤ◌ is_zero_request
reconcile_on_record_example =
    reconcile_on_record memory_store memory_server manager refl (one_quota ∷ [])
      (stopped_quota ∷ one_quota ∷ []) stopped refl refl

abbrev huge : ReservationRequest
huge = record running { id = "b"; active = pos 2147483647 }

reserve_overflow_example :
    (q : UserQuota) × (reserve_mutation 5 huge one_quota ≡ ok (q, true))
    × (q.reserved_active <ℤ pos 0)
unfolding int32 int64 ◌+ℤ◌ find_reservation
reserve_overflow_example =
    reserve_overflow 5 huge one_quota refl (omega arith) (omega arith) (omega arith) (omega arith)
      (omega arith) (omega arith)

-- The limit was lowered to zero while two sandboxes ran.
abbrev over_quota : UserQuota
over_quota = record one_quota {
  limits = record limits { active = pos 0 };
  reserved_active = pos 2;
  retained = pos 2;
  provisioned_storage_gib = pos 40;
  reservations = listed ∷ record listed { id = "b" } ∷ [];
}

reconcile_release_refused_example :
    reconcile_mutation 5
      (record running { active = pos 0; retained = pos 0; storage_gib = pos 0 })
      over_quota
    ≡ err quota_exceeded
unfolding ◌+ℤ◌ ◌-ℤ◌ find_reservation is_zero_request same_values
reconcile_release_refused_example =
    reconcile_release_refused 5
      (record running { active = pos 0; retained = pos 0; storage_gib = pos 0 }) over_quota listed
      (ground arith) refl refl refl (omega arith)

abbrev reserving : Mutation
reserving = reserve_mutation 5 running

-- A store where that many writes still meet a conflict.
abbrev contended : QuotaStore ℕ
contended = record {
  ctx_err = λ w. (none, w);
  get = λ w. (ok empty_quota, w);
  update_status = λ q w. if eqb w 0 then (none, w) else (some conflict, w - 1);
  wait = λ w. (some 0, w);
}

contended_answers : (w : ℕ) → ¬ ((contended.get w).0 ≡ err conflict)
contended_answers w h = cc

second_of : (x y : Option StoreError × ℕ) → x ≡ y → x.1 ≡ y.1
second_of x y h = ap (λ (x : Option StoreError × ℕ). x.1) h

contended_conflict :
    (q : UserQuota) (w w' : ℕ) → contended.update_status q w ≡ (some conflict, w') → w' < w
contended_conflict q w w' h = elim (Bool-cases (eqb w 0)) [
  | inl p ↦ cc (rw p at h)
  | inr p ↦
      let last : w - 1 ≡ w' = second_of (some conflict, w - 1) (some conflict, w') (rw p at h) in
      ground (arith, last)
]

same_left : (w : ℕ) → w ≤ w
same_left w = omega arith

contended_wait : (w w' : ℕ) → contended.wait w ≡ (none, w') → w' < w
contended_wait w w' h = cc

abbrev contended_rivals : Rivals contended
contended_rivals = record {
  left = λ w. w;
  ctx_le = same_left;
  get_le = same_left;
  get_answers = contended_answers;
  conflict_lt = contended_conflict;
  wait_lt = contended_wait;
}

-- Three conflicts, and the fourth attempt of eight is accepted.
retry_loop-IsSettled_example : IsSettled reserving (retry_loop contended reserving 8 8 none 3).0
retry_loop-IsSettled_example =
    retry_loop-IsSettled contended contended_rivals reserving 8 8 none 3 (omega arith)

-- The same store with a reservation on record.
abbrev holding : QuotaStore ℕ
holding = record contended { get = λ w. (ok one_quota, w) }

abbrev holder : QuotaManager ℕ
holder = record { store = some holding; max_attempts = 3; now = 7 }

one_quota-Distinct :
    (q : UserQuota) (v v' : ℕ)
    → Reaches holding 2 v
    → holding.get v ≡ (ok q, v')
    → Distinct q.reservations
unfolding find_reservation
one_quota-Distinct q v v' r h = let e : one_quota ≡ q = cc in rw (← e) (refl, tt)

-- Two conflicts, and the third attempt is accepted.
release-IsReleased_example : IsReleased holding "a" 2 0
unfolding release int32 int64 ◌-ℤ◌
release-IsReleased_example = release-IsReleased holding "a" 2 0 holder refl one_quota-Distinct refl
