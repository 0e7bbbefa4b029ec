-- ===== src/Lifecycle/Quota/Records.antt =====
-- internal/lifecycle/quota.go: what is on record in the API server when a call returns nil.
use mathlib.Core.Path.{subst}
use mathlib.Core.List.{Memᴰ}
use aksagent_sandbox.Base.{
  ℕ, ◌≡◌, refl, sym, inl, inr, String, Bool, true, false, Option, none, some, List, [], ◌∷◌, ◌++◌,
  arith, eq_iff, eq_refl, Option-cases, Bool-cases, ok, ◌==◌, ◌&&◌,
}
use aksagent_sandbox.Lifecycle.Quota.{
  UserQuota, QuotaReservation, ReservationRequest, Mutation, find_reservation, replace_reservation,
  remove_reservation, reserve_mutation, reconcile_mutation, new_reservation, is_zero_request,
  reconcile_found, same_values,
}
use aksagent_sandbox.Lifecycle.Quota.Totals.{Distinct}
use aksagent_sandbox.Lifecycle.Quota.Retry.{
  QuotaStore, QuotaManager, reserve, reconcile_reservation,
}
use aksagent_sandbox.Lifecycle.Quota.Retry.Calls.{reserve-Acted, reconcile-Acted}
use aksagent_sandbox.Lifecycle.Quota.Retry.Atomic.{ApiServer, Acted, unchanged, applied}

-- A stored version has what the mutation establishes.
Acted_on_record :
    (mutate : Mutation) (Q : UserQuota → Type 0) (P : List QuotaReservation → Type 0)
    (h : List UserQuota)
    → ((q : UserQuota) → Memᴰ q h → Q q)
    → ((q q' : UserQuota) (c : Bool) → Q q → mutate q ≡ ok (q', c) → P q'.reservations)
    → ((q q' : UserQuota) → mutate q ≡ ok (q', false) → q'.reservations ≡ q.reservations)
    → Acted mutate h
    → (q : UserQuota) × Memᴰ q h × P q.reservations
Acted_on_record mutate Q P h all gives same (unchanged q q' m e) =
    (q, m, subst P (same q q' e) (gives q q' false (all q m) e))
Acted_on_record mutate Q P h all gives same (applied p q' rest v top e) =
    let p_in : Memᴰ p h = subst (Memᴰ p) (sym top) (Memᴰ.tail (Memᴰ.head refl)) in
    (
      record q' { resource_version = v },
      subst (Memᴰ (record q' { resource_version = v })) (sym top) (Memᴰ.head refl),
      gives p q' true (all p p_in) e,
    )

find-append_self :
    (rs : List QuotaReservation) (r : QuotaReservation)
    → find_reservation r.id rs ≡ none
    → find_reservation r.id (rs ++ r ∷ []) ≡ some r
unfolding find_reservation
find-append_self [] r h = rw (eq_refl r.id)
find-append_self (x ∷ rs) r h = ground (arith, find-append_self rs r)

find-replace_self :
    (n : QuotaReservation) (rs : List QuotaReservation) {p : QuotaReservation}
    → find_reservation n.id rs ≡ some p
    → find_reservation n.id (replace_reservation n.id n rs) ≡ some n
unfolding find_reservation replace_reservation
find-replace_self n [] h = cc
find-replace_self n (x ∷ rs) {p} h = ground (arith, find-replace_self n rs {p = p}, eq_refl n.id)

pub find-remove_self :
    (id : String) (rs : List QuotaReservation)
    → Distinct rs
    → find_reservation id (remove_reservation id rs) ≡ none
unfolding find_reservation remove_reservation
find-remove_self id [] d = refl
find-remove_self id (x ∷ rs) d = ground (arith, find-remove_self id rs d.1, eq_iff x.id id)

abbrev pub IsListed : String → List QuotaReservation → Type 0
IsListed id rs = (p : QuotaReservation) × (find_reservation id rs ≡ some p)

reserve_lists :
    (now : ℕ) (r : ReservationRequest) (q q' : UserQuota) (c : Bool)
    → reserve_mutation now r q ≡ ok (q', c)
    → IsListed r.id q'.reservations
unfolding reserve_mutation new_reservation
reserve_lists now r q q' c h = elim (Option-cases (find_reservation r.id q.reservations)) [
  | inl e ↦ (
    new_reservation r now,
    ground (arith, find-append_self q.reservations (new_reservation r now)),
  )
  | inr (p, e) ↦ (p, ground arith)
]

reserve_same :
    (now : ℕ) (r : ReservationRequest) (q q' : UserQuota)
    → reserve_mutation now r q ≡ ok (q', false)
    → q'.reservations ≡ q.reservations
unfolding reserve_mutation
reserve_same now r q q' h = ground arith

-- The entry for a request holds its sandbox and its values.
abbrev pub IsRecorded : ReservationRequest → List QuotaReservation → Type 0
IsRecorded r rs =
    (p : QuotaReservation) × (find_reservation r.id rs ≡ some p)
    × (p.sandbox_name ≡ r.sandbox_name)
    × (p.active ≡ r.active)
    × (p.retained ≡ r.retained)
    × (p.storage_gib ≡ r.storage_gib)

reconcile_records :
    (now : ℕ) (r : ReservationRequest) (q q' : UserQuota) (c : Bool)
    (found : Option QuotaReservation)
    → is_zero_request r ≡ false
    → find_reservation r.id q.reservations ≡ found
    → reconcile_found now r found q ≡ ok (q', c)
    → IsRecorded r q'.reservations
unfolding reconcile_found new_reservation is_zero_request
reconcile_records now r q q' c none z e h =
    let new = new_reservation r now in
    let there = find-append_self q.reservations new e in (new, ground arith, refl, refl, refl, refl)
reconcile_records now r q q' c (some p) z e h =
    elim (Bool-cases (same_values p r && p.sandbox_name == r.sandbox_name)) [
      | inl same ↦ (
        p,
        ground arith,
        ground (arith, eq_iff p.sandbox_name r.sandbox_name),
        ground arith,
        ground arith,
        ground arith,
      )
      | inr differ ↦
          let new = new_reservation r p.created_at in
          let there = find-replace_self new q.reservations {p = p} e in
          (new, ground arith, refl, refl, refl, refl)
    ]

-- A request for nothing leaves no entry.
reconcile_same :
    (now : ℕ) (r : ReservationRequest) (q q' : UserQuota)
    → reconcile_mutation now r q ≡ ok (q', false)
    → q'.reservations ≡ q.reservations
unfolding reconcile_mutation
reconcile_same now r q q' h = ground arith

module _ {W : Type 0} (store : QuotaStore W) (server : ApiServer store) (m : QuotaManager W)
    (here : m.store ≡ some store) (w w' : W) where
  open server use {history}

  -- When `Reserve` returns nil, a version that the API server has stored lists the reservation.
  pub reserve_on_record :
      (r : ReservationRequest)
      → reserve m r w ≡ (none, w')
      → (q : UserQuota) × Memᴰ q (history w') × IsListed r.id q.reservations
  reserve_on_record r h =
      Acted_on_record (reserve_mutation m.now r) (λ _. Unit {0}) (IsListed r.id) (history w')
        (λ _ _. tt) (λ q q' c _. reserve_lists m.now r q q' c) (reserve_same m.now r)
        (reserve-Acted store server m here w w' r h).1

  -- When `ReconcileReservation` returns nil for a request that is not all zero, a stored version
  -- holds the reservation with the sandbox and the three values of the request.
  pub reconcile_on_record :
      (r : ReservationRequest)
      → is_zero_request r ≡ false
      → reconcile_reservation m r w ≡ (none, w')
      → (q : UserQuota) × Memᴰ q (history w') × IsRecorded r q.reservations
  unfolding reconcile_mutation
  reconcile_on_record r z h =
      Acted_on_record (reconcile_mutation m.now r) (λ _. Unit {0}) (IsRecorded r) (history w')
        (λ _ _. tt)
        (λ q q' c _. reconcile_records m.now r q q' c (find_reservation r.id q.reservations) z refl)
        (reconcile_same m.now r) (reconcile-Acted store server m here w w' r h).1
