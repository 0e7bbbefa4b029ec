-- ===== src/Lifecycle/Quota/Releases.antt =====
-- internal/lifecycle/quota.go: releasing a reservation keeps the accounts.
use mathlib.Core.Path.{subst}
use aksagent_sandbox.Base.{◌≡◌, refl, ap, ◌∙◌, String, Bool, Option, none, some, ok, ok_injective}
use aksagent_sandbox.Base.Int.{
  ℤ, pos, ◌-ℤ◌, ◌≤ℤ◌, IsInt32, IsInt64, int32, int64, int_laws, int32_of_range, int64_of_range,
}
use aksagent_sandbox.Lifecycle.Quota.{
  UserQuota, QuotaReservation, find_reservation, remove_reservation, release_found,
  release_mutation, max32, max64,
}
use aksagent_sandbox.Lifecycle.Quota.Totals.{
  total, IsAccounted, IsNonneg, total-remove, All-remove, Distinct-remove,
}
use aksagent_sandbox.Lifecycle.Quota.Parts.{IsPart-of_found, max32_nonneg, max64_nonneg}

left32 : (t p : ℤ) → pos 0 ≤ℤ p → p ≤ℤ t → IsInt32 t → max32 (pos 0) (int32 (t -ℤ p)) ≡ t -ℤ p
left32 t p a b c =
    rw (int32_of_range (t -ℤ p) (omega int_laws)) (max32_nonneg (t -ℤ p) (omega int_laws))

left64 : (t p : ℤ) → pos 0 ≤ℤ p → p ≤ℤ t → IsInt64 t → max64 (pos 0) (int64 (t -ℤ p)) ≡ t -ℤ p
left64 t p a b c =
    rw (int64_of_range (t -ℤ p) (omega int_laws)) (max64_nonneg (t -ℤ p) (omega int_laws))

-- The counter that is left is the sum over the reservations that are left.
left-total :
    (f : QuotaReservation → ℤ) (id : String) (q : UserQuota) (t : ℤ) {p : QuotaReservation}
    → t ≡ total f q.reservations
    → find_reservation id q.reservations ≡ some p
    → t -ℤ f p ≡ total f (remove_reservation id q.reservations)
left-total f id q t {p} s e = rw (s, total-remove f id q.reservations {p = p} e) (omega int_laws)

release_cases :
    (id : String) (q q' : UserQuota) (c : Bool) (found : Option QuotaReservation)
    → IsAccounted q
    → find_reservation id q.reservations ≡ found
    → release_found id found q ≡ (q', c)
    → IsAccounted q'
unfolding release_found
release_cases id q q' c none v e h = subst IsAccounted (ap (λ x. x.0) h) v
release_cases id q q' c (some p) v e h =
    let part = IsPart-of_found id q {p = p} v e in
    let a = left32 q.reserved_active p.active part.0.0 part.1 v.active_fits in
    let b = left32 q.retained p.retained part.0.1 part.2 v.retained_fits in
    let s = left64 q.provisioned_storage_gib p.storage_gib part.0.2 part.3 v.storage_fits in
    subst IsAccounted (ap (λ x. x.0) h) record {
      active_sum = a ∙ left-total (λ r. r.active) id q q.reserved_active {p = p} v.active_sum e;
      retained_sum = b ∙ left-total (λ r. r.retained) id q q.retained {p = p} v.retained_sum e;
      storage_sum =
          s
          ∙ left-total (λ r. r.storage_gib) id q q.provisioned_storage_gib {p = p} v.storage_sum e;
      active_fits = rw a (omega int_laws);
      retained_fits = rw b (omega int_laws);
      storage_fits = rw s (omega int_laws);
      nonneg = All-remove IsNonneg id q.reservations v.nonneg;
      distinct = Distinct-remove id q.reservations v.distinct;
    }

-- `Release` keeps the accounts.
pub release_mutation-IsAccounted :
    (id : String) (q q' : UserQuota) (c : Bool)
    → IsAccounted q
    → release_mutation id q ≡ ok (q', c)
    → IsAccounted q'
unfolding release_mutation
release_mutation-IsAccounted id q q' c v h =
    release_cases id q q' c (find_reservation id q.reservations) v refl (ok_injective h)
