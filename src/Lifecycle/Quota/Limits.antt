-- ===== src/Lifecycle/Quota/Limits.antt =====
-- internal/lifecycle/quota.go at the edges of its limits: a sum that leaves int32, and a release
-- by `ReconcileReservation` while the user is over a limit.
use Prim.Native.Nat.{◌^◌}
use aksagent_sandbox.Base.{
  ℕ, ◌≤◌, ◌<◌, ◌≡◌, ◌∙◌, true, false, Option, none, some, arith, ok, err, lt→ltb,
}
use aksagent_sandbox.Base.Int.{
  ℤ, pos, negsuc, pos_part, ◌+ℤ◌, ◌-ℤ◌, ◌≤ℤ◌, ◌<ℤ◌, IsInt32, ltb_ℤ, int32, int64, +ℤ_parts,
  parts_apart, +ℤ-zero,
}
use aksagent_sandbox.Lifecycle.Quota.{
  UserQuota, QuotaReservation, ReservationRequest, quota_exceeded, find_reservation,
  reserve_mutation, reconcile_mutation, reconcile_found, move_reservation, is_zero_request,
  same_values, new_reservation,
}
use aksagent_sandbox.Lifecycle.Quota.Totals.{IsAccounted}
use aksagent_sandbox.Lifecycle.Quota.Parts.{exact32, IsPart-of_found}
use aksagent_sandbox.Lifecycle.Quota.Accounts.{added}

-- A sum of two int32 values past the largest one is negative.
int32_overflow : (a : ℤ) → 2 ^ 31 ≤ pos_part a → pos_part a < 2 ^ 32 → int32 a <ℤ pos 0
unfolding int32
int32_overflow (pos n) h k = ground arith
int32_overflow (negsuc n) h k = absurd (omega arith)

-- `Reserve` accepts a request, under an ID that is not listed, whose sum with the active counter
-- passes the largest int32, whatever active limit that is not negative is set, when the retained and
-- storage sums are within their limits; and it leaves a negative active counter.
pub reserve_overflow :
    (now : ℕ) (r : ReservationRequest) (q : UserQuota)
    → find_reservation r.id q.reservations ≡ none
    → IsInt32 q.reserved_active
    → IsInt32 r.active
    → 2 ^ 31 ≤ pos_part (q.reserved_active +ℤ r.active)
    → pos 0 ≤ℤ q.limits.active
    → int32 (q.retained +ℤ r.retained) ≤ℤ q.limits.retained
    → int64 (q.provisioned_storage_gib +ℤ r.storage_gib) ≤ℤ q.limits.storage_gib
    → (q' : UserQuota) × (reserve_mutation now r q ≡ ok (q', true)) × (q'.reserved_active <ℤ pos 0)
unfolding reserve_mutation new_reservation
reserve_overflow now r q fresh a b big limit c s =
    let negative = int32_overflow (q.reserved_active +ℤ r.active) big (
      omega (
        arith,
        +ℤ_parts q.reserved_active r.active,
        parts_apart (q.reserved_active +ℤ r.active),
      )) in
    (added now r q, ground arith, negative)

-- A sum past the active limit refuses a move.
move_refused :
    (now : ℕ) (r : ReservationRequest) (found : Option QuotaReservation) (p : QuotaReservation)
    (q : UserQuota) (a : ℤ)
    → int32 (int32 (q.reserved_active -ℤ p.active) +ℤ r.active) ≡ a
    → ltb_ℤ q.limits.active a ≡ true
    → move_reservation now r found p q ≡ err quota_exceeded
unfolding move_reservation
move_refused now r found p q a e h = rw (e, h)

reconcile_moves :
    (now : ℕ) (r : ReservationRequest) (p : QuotaReservation) (q : UserQuota)
    → same_values p r ≡ false
    → reconcile_found now r (some p) q ≡ move_reservation now r (some p) p q
unfolding reconcile_found
reconcile_moves now r p q h = rw h

zero_active : (r : ReservationRequest) → is_zero_request r ≡ true → r.active ≡ pos 0
unfolding is_zero_request
zero_active r h = ground arith

-- `ReconcileReservation` with zero in every dimension is refused, and the reservation stays, while
-- the other reservations of the user alone pass the active limit.
pub reconcile_release_refused :
    (now : ℕ) (r : ReservationRequest) (q : UserQuota) (p : QuotaReservation)
    → IsAccounted q
    → is_zero_request r ≡ true
    → find_reservation r.id q.reservations ≡ some p
    → same_values p r ≡ false
    → q.limits.active <ℤ q.reserved_active -ℤ p.active
    → reconcile_mutation now r q ≡ err quota_exceeded
unfolding reconcile_mutation
reconcile_release_refused now r q p v z e differ over =
    let part = IsPart-of_found r.id q {p = p} v e in
    let zero = zero_active r z in
    let exact =
      exact32 q.reserved_active p.active r.active part.0.0 part.1 (rw zero (omega arith))
        v.active_fits (rw (zero, +ℤ-zero) v.active_fits) in
    rw (e, reconcile_moves now r p q differ)
      (move_refused now r (some p) p q (q.reserved_active -ℤ p.active) (exact ∙ rw (zero, +ℤ-zero))
        (lt→ltb _ _ over))
