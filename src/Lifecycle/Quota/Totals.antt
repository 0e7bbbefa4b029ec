-- ===== src/Lifecycle/Quota/Totals.antt =====
-- The accounts of a quota: what its counters say against the reservations that it lists.
use mathlib.Core.Path.{subst}
use aksagent_sandbox.Base.{
  ◌≡◌, refl, inl, inr, String, false, none, some, List, [], ◌∷◌, ◌++◌, arith, ◌==◌, All, eq_iff,
  Bool-cases, some_injective, sym,
}
use aksagent_sandbox.Base.Int.{
  ℤ, pos, ◌+ℤ◌, ◌≤ℤ◌, IsInt32, IsInt64, int_laws, +ℤ_comm, +ℤ_assoc, +ℤ-zero, zero-+ℤ,
}
use aksagent_sandbox.Lifecycle.Quota.{
  QuotaReservation, UserQuota, find_reservation, replace_reservation, remove_reservation,
}

-- The sum of one dimension over the reservations.
abbrev pub total : (QuotaReservation → ℤ) → List QuotaReservation → ℤ
total f [] = pos 0
total f (r ∷ rs) = f r +ℤ total f rs

-- No two reservations share an ID.
abbrev pub Distinct : List QuotaReservation → Type 0
Distinct [] = Unit {0}
Distinct (r ∷ rs) = (find_reservation r.id rs ≡ none) × Distinct rs

abbrev pub IsNonneg : QuotaReservation → Type 0
IsNonneg r = (pos 0 ≤ℤ r.active) × (pos 0 ≤ℤ r.retained) × (pos 0 ≤ℤ r.storage_gib)

-- The counters are the sums over the reservations and fit their types; IDs are distinct and no
-- value is negative.
pub record IsAccounted (q : UserQuota) : Type 0 where
  pub active_sum : q.reserved_active ≡ total (λ r. r.active) q.reservations
  pub retained_sum : q.retained ≡ total (λ r. r.retained) q.reservations
  pub storage_sum : q.provisioned_storage_gib ≡ total (λ r. r.storage_gib) q.reservations
  pub active_fits : IsInt32 q.reserved_active
  pub retained_fits : IsInt32 q.retained
  pub storage_fits : IsInt64 q.provisioned_storage_gib
  pub nonneg : All IsNonneg q.reservations
  pub distinct : Distinct q.reservations

pub record IsWithinLimits (q : UserQuota) : Type 0 where
  pub active_within : q.reserved_active ≤ℤ q.limits.active
  pub retained_within : q.retained ≤ℤ q.limits.retained
  pub storage_within : q.provisioned_storage_gib ≤ℤ q.limits.storage_gib

pub total-append :
    (f : QuotaReservation → ℤ) (rs : List QuotaReservation) (r : QuotaReservation)
    → total f (rs ++ r ∷ []) ≡ total f rs +ℤ f r
total-append f [] r = rw (+ℤ-zero, zero-+ℤ)
total-append f (x ∷ rs) r = rw (total-append f rs r, +ℤ_assoc)

pub total_nonneg :
    (f : QuotaReservation → ℤ) (rs : List QuotaReservation)
    → All (λ r. pos 0 ≤ℤ f r) rs
    → pos 0 ≤ℤ total f rs
total_nonneg f [] h = omega arith
total_nonneg f (r ∷ rs) h = omega (int_laws, total_nonneg f rs h.1)

-- A reservation that is found holds a part of the sum: taking it out takes that part away.
pub total-remove :
    (f : QuotaReservation → ℤ) (id : String) (rs : List QuotaReservation) {p : QuotaReservation}
    → find_reservation id rs ≡ some p
    → total f rs ≡ total f (remove_reservation id rs) +ℤ f p
unfolding find_reservation remove_reservation
total-remove f id [] h = cc
total-remove f id (r ∷ rs) {p} h = elim (Bool-cases (r.id == id)) [
  | inl same ↦ rw same (cc (+ℤ_comm (f r) (total f rs), rw same at h))
  | inr differ ↦
      rw (differ, total-remove f id rs {p = p} (rw differ at h))
        (sym (+ℤ_assoc (f r) (total f (remove_reservation id rs)) (f p)))
]

pub total-replace :
    (f : QuotaReservation → ℤ) (id : String) (n : QuotaReservation) (rs : List QuotaReservation)
    {p : QuotaReservation}
    → find_reservation id rs ≡ some p
    → total f (replace_reservation id n rs) ≡ total f (remove_reservation id rs) +ℤ f n
unfolding find_reservation replace_reservation remove_reservation
total-replace f id n [] h = cc
total-replace f id n (r ∷ rs) {p} h = elim (Bool-cases (r.id == id)) [
  | inl same ↦ rw same (+ℤ_comm (f n) (total f rs))
  | inr differ ↦
      rw (differ, total-replace f id n rs {p = p} (rw differ at h))
        (sym (+ℤ_assoc (f r) (total f (remove_reservation id rs)) (f n)))
]

-- Predicates on the entries, and distinct IDs, through the three changes of the list.
pub All-append :
    (P : QuotaReservation → Type 0) (rs : List QuotaReservation) (r : QuotaReservation)
    → All P rs
    → P r
    → All P (rs ++ r ∷ [])
All-append P [] r h k = (k, tt)
All-append P (x ∷ rs) r h k = (h.0, All-append P rs r h.1 k)

pub All-remove :
    (P : QuotaReservation → Type 0) (id : String) (rs : List QuotaReservation)
    → All P rs
    → All P (remove_reservation id rs)
unfolding remove_reservation
All-remove P id [] h = tt
All-remove P id (r ∷ rs) h = elim (Bool-cases (r.id == id)) [
  | inl same ↦ rw same h.1
  | inr differ ↦ rw differ (h.0, All-remove P id rs h.1)
]

pub All-replace :
    (P : QuotaReservation → Type 0) (id : String) (n : QuotaReservation)
    (rs : List QuotaReservation)
    → All P rs
    → P n
    → All P (replace_reservation id n rs)
unfolding replace_reservation
All-replace P id n [] h k = tt
All-replace P id n (r ∷ rs) h k = elim (Bool-cases (r.id == id)) [
  | inl same ↦ rw same (k, h.1)
  | inr differ ↦ rw differ (h.0, All-replace P id n rs h.1 k)
]

pub All-find :
    (P : QuotaReservation → Type 0) (id : String) (rs : List QuotaReservation)
    {p : QuotaReservation}
    → All P rs
    → find_reservation id rs ≡ some p
    → P p
unfolding find_reservation
All-find P id [] h e = cc
All-find P id (r ∷ rs) h e = elim (Bool-cases (r.id == id)) [
  | inl same ↦ subst P (some_injective (rw same at e)) h.0
  | inr differ ↦ All-find P id rs h.1 (rw differ at e)
]

pub find-append :
    (id : String) (rs : List QuotaReservation) (r : QuotaReservation)
    → find_reservation id rs ≡ none
    → (r.id == id) ≡ false
    → find_reservation id (rs ++ r ∷ []) ≡ none
unfolding find_reservation
find-append id [] r h k = rw k
find-append id (x ∷ rs) r h k = ground (arith, find-append id rs r)

pub Distinct-append :
    (rs : List QuotaReservation) (r : QuotaReservation)
    → Distinct rs
    → find_reservation r.id rs ≡ none
    → Distinct (rs ++ r ∷ [])
unfolding find_reservation
Distinct-append [] r h k = (refl, tt)
Distinct-append (x ∷ rs) r h k =
    ground
      (arith, find-append x.id rs r, Distinct-append rs r h.1, eq_iff x.id r.id, eq_iff r.id x.id)

pub find-remove :
    (id j : String) (rs : List QuotaReservation)
    → find_reservation j rs ≡ none
    → find_reservation j (remove_reservation id rs) ≡ none
unfolding find_reservation remove_reservation
find-remove id j [] h = refl
find-remove id j (r ∷ rs) h = ground (arith, find-remove id j rs)

pub Distinct-remove :
    (id : String) (rs : List QuotaReservation) → Distinct rs → Distinct (remove_reservation id rs)
unfolding remove_reservation
Distinct-remove id [] h = tt
Distinct-remove id (r ∷ rs) h = ground (arith, find-remove id r.id rs, Distinct-remove id rs h.1)

pub find-replace :
    (j : String) (n : QuotaReservation) (rs : List QuotaReservation)
    → find_reservation j rs ≡ none
    → find_reservation j (replace_reservation n.id n rs) ≡ none
unfolding find_reservation replace_reservation
find-replace j n [] h = refl
find-replace j n (r ∷ rs) h =
    ground (arith, find-replace j n rs, eq_iff r.id n.id, eq_iff n.id j, eq_iff r.id j)

pub Distinct-replace :
    (n : QuotaReservation) (rs : List QuotaReservation)
    → Distinct rs
    → Distinct (replace_reservation n.id n rs)
unfolding replace_reservation
Distinct-replace n [] h = tt
Distinct-replace n (r ∷ rs) h =
    ground (arith, find-replace r.id n rs, Distinct-replace n rs h.1, eq_iff r.id n.id)
