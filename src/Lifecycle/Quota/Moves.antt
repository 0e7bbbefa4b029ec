-- ===== src/Lifecycle/Quota/Moves.antt =====
-- internal/lifecycle/quota.go: moving and releasing a reservation keeps the accounts.
use mathlib.Core.Path.{subst}
use mathlib.Core.Option.{get_or}
use aksagent_sandbox.Base.{
  ℕ, ◌≡◌, refl, sym, ◌⊎◌, inl, inr, Bool, true, false, Option, none, some, List, arith, ok,
}
use aksagent_sandbox.Base.Int.{ℤ, ◌+ℤ◌, ◌-ℤ◌}
use aksagent_sandbox.Lifecycle.Quota.{
  QuotaReservation, UserQuota, ReservationRequest, find_reservation, validate_reconcile,
  reconcile_mutation, new_reservation, place, move_reservation, no_reservation, reconcile_found,
}
use aksagent_sandbox.Lifecycle.Quota.Totals.{IsAccounted, IsWithinLimits, IsNonneg}
use aksagent_sandbox.Lifecycle.Quota.Parts.{
  exact32, exact64, max32_nonneg, max64_nonneg, moved_nonneg, moved_fits32, moved_fits64, IsPart,
  IsPart-or_none,
}
use aksagent_sandbox.Lifecycle.Quota.Place.{place-total, place-All, place-Distinct, is_zero_values}
use aksagent_sandbox.Lifecycle.Quota.Accounts.{Fits, IsNonnegRequest, validate_reconcile_nonneg}

abbrev moved : ReservationRequest → QuotaReservation → List QuotaReservation → UserQuota → UserQuota
moved r p rs q = record q {
  reserved_active = q.reserved_active -ℤ p.active +ℤ r.active;
  retained = q.retained -ℤ p.retained +ℤ r.retained;
  provisioned_storage_gib = q.provisioned_storage_gib -ℤ p.storage_gib +ℤ r.storage_gib;
  reservations = rs;
}

move_cases :
    (now : ℕ) (r : ReservationRequest) (found : Option QuotaReservation) (p : QuotaReservation)
    (q q' : UserQuota) (c : Bool)
    → move_reservation now r found p q ≡ ok (q', c)
    → IsPart p q
    → IsNonnegRequest r
    → Fits q r
    → IsAccounted q
    → (q' ≡ moved r p (place now r found q.reservations).0 q) × IsWithinLimits q'
unfolding move_reservation
move_cases now r found p q q' c h part n fits v =
    let a = exact32 q.reserved_active p.active r.active part.0.0 part.1 n.0 v.active_fits fits.0 in
    let b = exact32 q.retained p.retained r.retained part.0.1 part.2 n.1 v.retained_fits fits.1 in
    let s =
      exact64 q.provisioned_storage_gib p.storage_gib r.storage_gib part.0.2 part.3 n.2
        v.storage_fits fits.2 in
    let a0 = moved_nonneg q.reserved_active p.active r.active part.1 n.0 in
    let b0 = moved_nonneg q.retained p.retained r.retained part.2 n.1 in
    let s0 = moved_nonneg q.provisioned_storage_gib p.storage_gib r.storage_gib part.3 n.2 in
    ground (arith, a, b, s, max32_nonneg _ a0, max32_nonneg _ b0, max64_nonneg _ s0)

module _ (now : ℕ) (r : ReservationRequest) (q : UserQuota) (found : Option QuotaReservation)
    (e : find_reservation r.id q.reservations ≡ found) where
  -- The counters and the list after a move agree again.
  moved-IsAccounted :
      let p = get_or found no_reservation in
      IsPart p q
      → IsNonnegRequest r
      → Fits q r
      → IsAccounted q
      → IsAccounted (moved r p (place now r found q.reservations).0 q)
  unfolding new_reservation
  moved-IsAccounted part n fits v =
      let p = get_or found no_reservation in
      let sum = λ (f : QuotaReservation → ℤ) (x : ℤ). place-total f x now r q.reservations found in
      record {
        active_sum =
            rw v.active_sum
              (sym (sum (λ s. s.active) r.active (λ _. refl) refl (λ z. (is_zero_values r z).0) e));
        retained_sum = rw v.retained_sum (
            sym
              (sum (λ s. s.retained) r.retained (λ _. refl) refl (λ z. (is_zero_values r z).1) e));
        storage_sum = rw v.storage_sum (
            sym (
              sum (λ s. s.storage_gib) r.storage_gib (λ _. refl) refl (λ z. (is_zero_values r z).2)
                e));
        active_fits =
            moved_fits32 q.reserved_active p.active r.active part.0.0 part.1 n.0 v.active_fits
              fits.0;
        retained_fits =
            moved_fits32 q.retained p.retained r.retained part.0.1 part.2 n.1 v.retained_fits
              fits.1;
        storage_fits =
            moved_fits64 q.provisioned_storage_gib p.storage_gib r.storage_gib part.0.2 part.3 n.2
              v.storage_fits fits.2;
        nonneg = place-All IsNonneg now r q.reservations found (λ _. n) v.nonneg;
        distinct = place-Distinct now r q.reservations found e v.distinct;
      }

  move-IsAccounted :
      (q' : UserQuota) (c : Bool)
      → IsPart (get_or found no_reservation) q
      → IsNonnegRequest r
      → Fits q r
      → IsAccounted q
      → move_reservation now r found (get_or found no_reservation) q ≡ ok (q', c)
      → IsAccounted q' × IsWithinLimits q'
  move-IsAccounted q' c part n fits v h =
      let (same, within) =
        move_cases now r found (get_or found no_reservation) q q' c h part n fits v in
      (subst IsAccounted (sym same) (moved-IsAccounted part n fits v), within)

-- Either nothing changed, or the reservation was moved.
reconcile_cases :
    (now : ℕ) (r : ReservationRequest) (q q' : UserQuota) (c : Bool)
    (found : Option QuotaReservation)
    → reconcile_found now r found q ≡ ok (q', c)
    → ((q' ≡ q) × (c ≡ false))
      ⊎ (move_reservation now r found (get_or found no_reservation) q ≡ ok (q', c))
unfolding reconcile_found
reconcile_cases now r q q' c none h = ground arith
reconcile_cases now r q q' c (some p) h = ground arith

-- `ReconcileReservation` keeps the accounts, and what it changes ends within the limits.
pub reconcile_mutation-IsAccounted :
    (now : ℕ) (r : ReservationRequest) (q q' : UserQuota) (c : Bool)
    → validate_reconcile r ≡ none
    → Fits q r
    → IsAccounted q
    → reconcile_mutation now r q ≡ ok (q', c)
    → IsAccounted q' × (c ≡ true → IsWithinLimits q')
unfolding reconcile_mutation
reconcile_mutation-IsAccounted now r q q' c valid fits v h =
    let n = validate_reconcile_nonneg r valid in
    let found = find_reservation r.id q.reservations in
    elim (reconcile_cases now r q q' c found h) [
      | inl (same, kept) ↦ (subst IsAccounted (sym same) v, λ t. cc)
      | inr e ↦
          let (accounted, within) =
            move-IsAccounted now r q found refl q' c (IsPart-or_none r.id q found refl v) n fits v
              e in
          (accounted, λ _. within)
    ]
