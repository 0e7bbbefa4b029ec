-- ===== src/Lifecycle/Quota/Place.antt =====
-- internal/lifecycle/quota.go: what `ReconcileReservation` does to the list of reservations.
use mathlib.Core.Option.{get_or}
use aksagent_sandbox.Base.{ℕ, ◌≡◌, inl, inr, true, Option, none, some, List, arith, All, Bool-cases}
use aksagent_sandbox.Base.Int.{ℤ, pos, ◌+ℤ◌, ◌-ℤ◌, int_laws}
use aksagent_sandbox.Lifecycle.Quota.{
  QuotaReservation, ReservationRequest, find_reservation, new_reservation, place, no_reservation,
  is_zero_request,
}
use aksagent_sandbox.Lifecycle.Quota.Totals.{
  total, total-append, total-remove, total-replace, All-append, All-remove, All-replace, Distinct,
  Distinct-append, Distinct-remove, Distinct-replace,
}

pub place-total :
    (f : QuotaReservation → ℤ) (fr : ℤ) (now : ℕ) (r : ReservationRequest)
    (rs : List QuotaReservation) (found : Option QuotaReservation)
    → ((n : ℕ) → f (new_reservation r n) ≡ fr)
    → f no_reservation ≡ pos 0
    → (is_zero_request r ≡ true → fr ≡ pos 0)
    → find_reservation r.id rs ≡ found
    → total f (place now r found rs).0 ≡ total f rs -ℤ f (get_or found no_reservation) +ℤ fr
unfolding place
place-total f fr now r rs none new missing zero e = elim (Bool-cases (is_zero_request r)) [
  | inl z ↦ rw (z, missing, zero z) (omega int_laws)
  | inr z ↦ rw (z, missing, total-append f rs (new_reservation r now), new now) (omega int_laws)
]
place-total f fr now r rs (some p) new missing zero e = elim (Bool-cases (is_zero_request r)) [
  | inl z ↦ rw (z, zero z, total-remove f r.id rs {p = p} e) (omega (int_laws))
  | inr z ↦
      rw
        (
          z,
          total-replace f r.id (new_reservation r p.created_at) rs {p = p} e,
          new p.created_at,
          total-remove f r.id rs {p = p} e,
        )
        (omega int_laws)
]

pub is_zero_values :
    (r : ReservationRequest)
    → is_zero_request r ≡ true
    → (r.active ≡ pos 0) × (r.retained ≡ pos 0) × (r.storage_gib ≡ pos 0)
unfolding is_zero_request
is_zero_values r h = ground arith

pub place-All :
    (P : QuotaReservation → Type 0) (now : ℕ) (r : ReservationRequest) (rs : List QuotaReservation)
    (found : Option QuotaReservation)
    → ((n : ℕ) → P (new_reservation r n))
    → All P rs
    → All P (place now r found rs).0
unfolding place
place-All P now r rs none new h = elim (Bool-cases (is_zero_request r)) [
  | inl z ↦ rw z h
  | inr z ↦ rw z (All-append P rs (new_reservation r now) h (new now))
]
place-All P now r rs (some p) new h = elim (Bool-cases (is_zero_request r)) [
  | inl z ↦ rw z (All-remove P r.id rs h)
  | inr z ↦ rw z (All-replace P r.id (new_reservation r p.created_at) rs h (new p.created_at))
]

pub place-Distinct :
    (now : ℕ) (r : ReservationRequest) (rs : List QuotaReservation)
    (found : Option QuotaReservation)
    → find_reservation r.id rs ≡ found
    → Distinct rs
    → Distinct (place now r found rs).0
unfolding place new_reservation
place-Distinct now r rs none e d = elim (Bool-cases (is_zero_request r)) [
  | inl z ↦ rw z d
  | inr z ↦ rw z (Distinct-append rs (new_reservation r now) d e)
]
place-Distinct now r rs (some p) e d = elim (Bool-cases (is_zero_request r)) [
  | inl z ↦ rw z (Distinct-remove r.id rs d)
  | inr z ↦ rw z (Distinct-replace (new_reservation r p.created_at) rs d)
]
