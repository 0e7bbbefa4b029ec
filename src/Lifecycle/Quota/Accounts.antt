-- ===== src/Lifecycle/Quota/Accounts.antt =====
-- The mutations of internal/lifecycle/quota.go keep the accounts of a quota, as long as no
-- counter leaves the range of its type.
use mathlib.Core.Path.{subst}
use aksagent_sandbox.Base.{
  ℕ, ◌≡◌, sym, ◌⊎◌, inl, inr, Bool, true, false, none, [], ◌∷◌, ◌++◌, arith, ok,
}
use aksagent_sandbox.Base.Int.{
  pos, ◌+ℤ◌, ◌≤ℤ◌, IsInt32, IsInt64, int32, int64, int32_of_range, int64_of_range,
}
use aksagent_sandbox.Lifecycle.Quota.{
  UserQuota, ReservationRequest, find_reservation, validate_reservation, validate_reconcile,
  reserve_mutation, new_reservation,
}
use aksagent_sandbox.Lifecycle.Quota.Totals.{
  IsAccounted, IsWithinLimits, IsNonneg, total-append, All-append, Distinct-append,
}

-- The sums that the code computes before it compares them with the limits fit their types.
abbrev pub Fits : UserQuota → ReservationRequest → Type 0
Fits q r =
    IsInt32 (q.reserved_active +ℤ r.active)
    × IsInt32 (q.retained +ℤ r.retained)
    × IsInt64 (q.provisioned_storage_gib +ℤ r.storage_gib)

abbrev pub IsNonnegRequest : ReservationRequest → Type 0
IsNonnegRequest r = (pos 0 ≤ℤ r.active) × (pos 0 ≤ℤ r.retained) × (pos 0 ≤ℤ r.storage_gib)

pub validate_reconcile_nonneg :
    (r : ReservationRequest) → validate_reconcile r ≡ none → IsNonnegRequest r
unfolding validate_reconcile
validate_reconcile_nonneg r h = ground arith

pub validate_reservation_nonneg :
    (r : ReservationRequest) → validate_reservation r ≡ none → IsNonnegRequest r
unfolding validate_reservation
validate_reservation_nonneg r h = ground arith

abbrev pub added : ℕ → ReservationRequest → UserQuota → UserQuota
added now r q = record q {
  reserved_active = int32 (q.reserved_active +ℤ r.active);
  retained = int32 (q.retained +ℤ r.retained);
  provisioned_storage_gib = int64 (q.provisioned_storage_gib +ℤ r.storage_gib);
  reservations = q.reservations ++ new_reservation r now ∷ [];
}

pub reserve_cases :
    (now : ℕ) (r : ReservationRequest) (q q' : UserQuota) (c : Bool)
    → reserve_mutation now r q ≡ ok (q', c)
    → ((q' ≡ q) × (c ≡ false))
      ⊎ ((find_reservation r.id q.reservations ≡ none)
          × (q' ≡ added now r q)
          × (c ≡ true)
          × IsWithinLimits (added now r q))
unfolding reserve_mutation new_reservation
reserve_cases now r q q' c h = ground arith

module _ (now : ℕ) (r : ReservationRequest) (q : UserQuota) where
  added-IsAccounted :
      IsNonnegRequest r
      → find_reservation r.id q.reservations ≡ none
      → Fits q r
      → IsAccounted q
      → IsAccounted (added now r q)
  unfolding new_reservation
  added-IsAccounted n fresh fits v =
      let a = int32_of_range (q.reserved_active +ℤ r.active) fits.0 in
      let b = int32_of_range (q.retained +ℤ r.retained) fits.1 in
      let c = int64_of_range (q.provisioned_storage_gib +ℤ r.storage_gib) fits.2 in
      record {
        active_sum =
            cc (
              a,
              v.active_sum,
              total-append (λ r. r.active) q.reservations (new_reservation r now),
            );
        retained_sum = cc (
          b,
          v.retained_sum,
          total-append (λ r. r.retained) q.reservations (new_reservation r now),
        );
        storage_sum = cc (
          c,
          v.storage_sum,
          total-append (λ r. r.storage_gib) q.reservations (new_reservation r now),
        );
        active_fits = rw a fits.0;
        retained_fits = rw b fits.1;
        storage_fits = rw c fits.2;
        nonneg = All-append IsNonneg q.reservations (new_reservation r now) v.nonneg n;
        distinct = Distinct-append q.reservations (new_reservation r now) v.distinct fresh;
      }

-- `Reserve` keeps the accounts, and never takes a quota past its limits.
pub reserve_mutation-IsAccounted :
    (now : ℕ) (r : ReservationRequest) (q q' : UserQuota) (c : Bool)
    → validate_reservation r ≡ none
    → Fits q r
    → IsAccounted q
    → reserve_mutation now r q ≡ ok (q', c)
    → IsAccounted q' × (c ≡ true → IsWithinLimits q')
reserve_mutation-IsAccounted now r q q' c valid fits v h = elim (reserve_cases now r q q' c h) [
  | inl (same, kept) ↦ (subst IsAccounted (sym same) v, λ t. cc)
  | inr (fresh, e, _, within) ↦ (
    subst IsAccounted (sym e)
        (added-IsAccounted now r q (validate_reservation_nonneg r valid) fresh fits v),
    λ _. subst IsWithinLimits (sym e) within,
  )
]
