-- ===== src/Lifecycle/Quota/Parts.antt =====
-- internal/lifecycle/quota.go: the arithmetic of a move, where no value leaves its type, and the
-- share that a listed reservation has in the counters.
use mathlib.Core.Option.{get_or}
use aksagent_sandbox.Base.{◌≡◌, String, Option, none, some, List, [], ◌∷◌, arith, All}
use aksagent_sandbox.Base.Int.{
  ℤ, pos, ◌+ℤ◌, ◌-ℤ◌, ◌≤ℤ◌, IsInt32, IsInt64, int32, int64, int_laws, int32_of_range,
  int64_of_range,
}
use aksagent_sandbox.Lifecycle.Quota.{
  QuotaReservation, UserQuota, find_reservation, remove_reservation, max32, max64, no_reservation,
}
use aksagent_sandbox.Lifecycle.Quota.Totals.{
  total, IsAccounted, IsNonneg, total_nonneg, total-remove, All-remove, All-find,
}

-- Where no intermediate value leaves its type, the code computes `t - p + r`.
pub exact32 :
    (t p r : ℤ)
    → pos 0 ≤ℤ p
    → p ≤ℤ t
    → pos 0 ≤ℤ r
    → IsInt32 t
    → IsInt32 (t +ℤ r)
    → int32 (int32 (t -ℤ p) +ℤ r) ≡ t -ℤ p +ℤ r
exact32 t p r a b c d e =
    rw (int32_of_range (t -ℤ p) (omega int_laws)) (int32_of_range (t -ℤ p +ℤ r) (omega int_laws))

pub exact64 :
    (t p r : ℤ)
    → pos 0 ≤ℤ p
    → p ≤ℤ t
    → pos 0 ≤ℤ r
    → IsInt64 t
    → IsInt64 (t +ℤ r)
    → int64 (int64 (t -ℤ p) +ℤ r) ≡ t -ℤ p +ℤ r
exact64 t p r a b c d e =
    rw (int64_of_range (t -ℤ p) (omega int_laws)) (int64_of_range (t -ℤ p +ℤ r) (omega int_laws))

pub max32_nonneg : (a : ℤ) → pos 0 ≤ℤ a → max32 (pos 0) a ≡ a
unfolding max32
max32_nonneg a h = ground arith

pub max64_nonneg : (a : ℤ) → pos 0 ≤ℤ a → max64 (pos 0) a ≡ a
unfolding max64
max64_nonneg a h = ground arith

pub moved_nonneg : (t p r : ℤ) → p ≤ℤ t → pos 0 ≤ℤ r → pos 0 ≤ℤ t -ℤ p +ℤ r
moved_nonneg t p r h k = omega int_laws

pub moved_fits32 :
    (t p x : ℤ)
    → pos 0 ≤ℤ p
    → p ≤ℤ t
    → pos 0 ≤ℤ x
    → IsInt32 t
    → IsInt32 (t +ℤ x)
    → IsInt32 (t -ℤ p +ℤ x)
moved_fits32 t p x a b c d k = omega int_laws

pub moved_fits64 :
    (t p x : ℤ)
    → pos 0 ≤ℤ p
    → p ≤ℤ t
    → pos 0 ≤ℤ x
    → IsInt64 t
    → IsInt64 (t +ℤ x)
    → IsInt64 (t -ℤ p +ℤ x)
moved_fits64 t p x a b c d k = omega int_laws

-- A reservation that the counters contain.
abbrev pub IsPart : QuotaReservation → UserQuota → Type 0
IsPart p q =
    IsNonneg p
    × (p.active ≤ℤ q.reserved_active)
    × (p.retained ≤ℤ q.retained)
    × (p.storage_gib ≤ℤ q.provisioned_storage_gib)

All-map :
    (P Q : QuotaReservation → Type 0) (rs : List QuotaReservation)
    → ((r : QuotaReservation) → P r → Q r)
    → All P rs
    → All Q rs
All-map P Q [] f h = tt
All-map P Q (r ∷ rs) f h = (f r h.0, All-map P Q rs f h.1)

-- What is found is at most the sum.
found-le-total :
    (f : QuotaReservation → ℤ) (id : String) (rs : List QuotaReservation) {p : QuotaReservation}
    → All (λ r. pos 0 ≤ℤ f r) rs
    → find_reservation id rs ≡ some p
    → f p ≤ℤ total f rs
found-le-total f id rs {p} h e = rw (total-remove f id rs {p = p} e) (
    omega (
      int_laws,
      total_nonneg f (remove_reservation id rs) (All-remove (λ r. pos 0 ≤ℤ f r) id rs h),
    ))

pub IsPart-of_found :
    (id : String) (q : UserQuota) {p : QuotaReservation}
    → IsAccounted q
    → find_reservation id q.reservations ≡ some p
    → IsPart p q
IsPart-of_found id q {p} v e =
    let part =
      λ (f : QuotaReservation → ℤ) (k : (r : QuotaReservation) → IsNonneg r → pos 0 ≤ℤ f r).
        found-le-total f id q.reservations {p = p}
          (All-map IsNonneg (λ r. pos 0 ≤ℤ f r) q.reservations k v.nonneg) e in
    (
      All-find IsNonneg id q.reservations v.nonneg e,
      rw v.active_sum (part (λ r. r.active) (λ r n. n.0)),
      rw v.retained_sum (part (λ r. r.retained) (λ r n. n.1)),
      rw v.storage_sum (part (λ r. r.storage_gib) (λ r n. n.2)),
    )

no-IsPart : (q : UserQuota) → IsAccounted q → IsPart no_reservation q
no-IsPart q v =
    let nonneg =
      λ (f : QuotaReservation → ℤ) (k : (r : QuotaReservation) → IsNonneg r → pos 0 ≤ℤ f r).
        total_nonneg f q.reservations
          (All-map IsNonneg (λ r. pos 0 ≤ℤ f r) q.reservations k v.nonneg) in
    (
      (omega arith, omega arith, omega arith),
      rw v.active_sum (nonneg (λ r. r.active) (λ r n. n.0)),
      rw v.retained_sum (nonneg (λ r. r.retained) (λ r n. n.1)),
      rw v.storage_sum (nonneg (λ r. r.storage_gib) (λ r n. n.2)),
    )

pub IsPart-or_none :
    (id : String) (q : UserQuota) (found : Option QuotaReservation)
    → find_reservation id q.reservations ≡ found
    → IsAccounted q
    → IsPart (get_or found no_reservation) q
IsPart-or_none id q none e v = no-IsPart q v
IsPart-or_none id q (some p) e v = IsPart-of_found id q v e
