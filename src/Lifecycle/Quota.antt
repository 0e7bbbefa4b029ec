-- ===== src/Lifecycle/Quota.antt =====
-- internal/lifecycle/quota.go: reservations against a user's quota. The quota object is one
-- resource of the Kubernetes API, read and written through `QuotaStore`; its conditions are not
-- touched by this code and are left out.
pub mod Retry
pub mod Totals
pub mod Accounts
pub mod Parts
pub mod Place
pub mod Moves
pub mod Releases
pub mod Records
pub mod Released
pub mod Limits
mod Examples
use aksagent_sandbox.Base.{
  ℕ, zero, suc, String, Bool, true, false, ◌&&◌, ◌||◌, Option, none, some, List, [], ◌∷◌, ◌++◌,
  ◌==◌, if◌then◌else◌, Result, ok, err,
}
use aksagent_sandbox.Base.Int.{ℤ, pos, ◌+ℤ◌, ◌-ℤ◌, ltb_ℤ, eqb_ℤ, int32, int64}

pub record QuotaLimits : Type 0 where
  pub active : ℤ  -- int32
  pub retained : ℤ  -- int32
  pub storage_gib : ℤ  -- int64

pub record QuotaReservation : Type 0 where
  pub id : String
  pub sandbox_name : String
  pub active : ℤ  -- int32
  pub retained : ℤ  -- int32
  pub storage_gib : ℤ  -- int64
  pub created_at : ℕ

-- DevSandboxUserQuota: the identity, the limits of its spec and the fields of its status.
pub record UserQuota : Type 0 where
  pub resource_version : ℕ
  pub github_user_id : String
  pub limits : QuotaLimits
  pub reserved_active : ℤ  -- int32
  pub retained : ℤ  -- int32
  pub provisioned_storage_gib : ℤ  -- int64
  pub reservations : List QuotaReservation

pub record ReservationRequest : Type 0 where
  pub id : String
  pub sandbox_name : String
  pub active : ℤ  -- int32
  pub retained : ℤ  -- int32
  pub storage_gib : ℤ  -- int64

pub data StoreError : Type 0 where
  not_found conflict : StoreError
  other : ℕ → StoreError

pub data QuotaError : Type 0 where
  names_required values_negative nothing_reserved id_required store_required : QuotaError
  quota_exceeded : QuotaError
  context_done : ℕ → QuotaError
  store_failed : StoreError → QuotaError
  not_converged : ℕ → Option StoreError → QuotaError

-- What a mutation leaves: the quota, and whether it changed; or the error that stops the call.
abbrev pub Mutation : Type 0
Mutation = UserQuota → Result QuotaError (UserQuota × Bool)

abbrev pub gtb_ℤ : ℤ → ℤ → Bool
gtb_ℤ a b = ltb_ℤ b a

pub max32 : ℤ → ℤ → ℤ
max32 a b = if gtb_ℤ a b then a else b

pub max64 : ℤ → ℤ → ℤ
max64 a b = if gtb_ℤ a b then a else b

-- The loops over `quota.Status.Reservations` that stop at the first entry with the ID.
pub find_reservation : String → List QuotaReservation → Option QuotaReservation
find_reservation id [] = none
find_reservation id (r ∷ rs) = if r.id == id then some r else find_reservation id rs

pub replace_reservation : String → QuotaReservation → List QuotaReservation → List QuotaReservation
replace_reservation id next [] = []
replace_reservation id next (r ∷ rs) =
    if r.id == id then next ∷ rs else r ∷ replace_reservation id next rs

pub remove_reservation : String → List QuotaReservation → List QuotaReservation
remove_reservation id [] = []
remove_reservation id (r ∷ rs) = if r.id == id then rs else r ∷ remove_reservation id rs

pub is_zero_request : ReservationRequest → Bool
is_zero_request r =
    eqb_ℤ r.active (pos 0) && eqb_ℤ r.retained (pos 0) && eqb_ℤ r.storage_gib (pos 0)

abbrev pub check_names : ReservationRequest → Option QuotaError
check_names r = if r.id == "" || r.sandbox_name == "" then some names_required else none

abbrev pub check_values : ReservationRequest → Option QuotaError
check_values r =
    if ltb_ℤ r.active (pos 0) || ltb_ℤ r.retained (pos 0) || ltb_ℤ r.storage_gib (pos 0)
    then some values_negative
    else none

-- The first test that fails decides.
abbrev pub first_error : Option QuotaError → Option QuotaError → Option QuotaError
first_error none e = e
first_error (some d) e = some d

pub validate_reservation : ReservationRequest → Option QuotaError
unfolding is_zero_request
validate_reservation r =
    first_error (check_names r)
      (first_error (check_values r) (if is_zero_request r then some nothing_reserved else none))

-- The two tests at the head of `ReconcileReservation`.
pub validate_reconcile : ReservationRequest → Option QuotaError
validate_reconcile r = first_error (check_names r) (check_values r)

exceeds : QuotaLimits → ℤ → ℤ → ℤ → Bool
exceeds l a r s = gtb_ℤ a l.active || gtb_ℤ r l.retained || gtb_ℤ s l.storage_gib

pub new_reservation : ReservationRequest → ℕ → QuotaReservation
new_reservation request now = record {
  id = request.id;
  sandbox_name = request.sandbox_name;
  active = request.active;
  retained = request.retained;
  storage_gib = request.storage_gib;
  created_at = now;
}

add_reservation : ℕ → ReservationRequest → UserQuota → Result QuotaError (UserQuota × Bool)
unfolding exceeds new_reservation
add_reservation now request q =
    let a = int32 (q.reserved_active +ℤ request.active) in
    let r = int32 (q.retained +ℤ request.retained) in
    let s = int64 (q.provisioned_storage_gib +ℤ request.storage_gib) in
    if exceeds q.limits a r s
    then err quota_exceeded
    else ok (
      record q {
        reserved_active = a;
        retained = r;
        provisioned_storage_gib = s;
        reservations = q.reservations ++ new_reservation request now ∷ [];
      },
      true,
    )

-- The function that `Reserve` hands to `retry`.
pub reserve_mutation : ℕ → ReservationRequest → Mutation
unfolding find_reservation add_reservation
reserve_mutation now request q = elim (find_reservation request.id q.reservations) [
  | some _ ↦ ok (q, false)
  | none ↦ add_reservation now request q
]

-- The zero value of the struct, which stands for a reservation that is not there.
abbrev pub no_reservation : QuotaReservation
no_reservation = record {
  id = "";
  sandbox_name = "";
  active = pos 0;
  retained = pos 0;
  storage_gib = pos 0;
  created_at = 0;
}

pub same_values : QuotaReservation → ReservationRequest → Bool
same_values p r =
    eqb_ℤ p.active r.active && eqb_ℤ p.retained r.retained && eqb_ℤ p.storage_gib r.storage_gib

-- The reservations after the change, and the result `changed`.
pub place :
    ℕ
    → ReservationRequest
    → Option QuotaReservation
    → List QuotaReservation
    → List QuotaReservation × Bool
unfolding is_zero_request new_reservation remove_reservation replace_reservation
place now request none rs =
    if is_zero_request request then (rs, false) else (rs ++ new_reservation request now ∷ [], true)
place now request (some p) rs =
    if is_zero_request request
    then (remove_reservation request.id rs, true)
    else (replace_reservation request.id (new_reservation request p.created_at) rs, true)

pub move_reservation :
    ℕ
    → ReservationRequest
    → Option QuotaReservation
    → QuotaReservation
    → UserQuota
    → Result QuotaError (UserQuota × Bool)
unfolding exceeds place max32 max64
move_reservation now request found previous q =
    let a = int32 (int32 (q.reserved_active -ℤ previous.active) +ℤ request.active) in
    let r = int32 (int32 (q.retained -ℤ previous.retained) +ℤ request.retained) in
    let s =
      int64 (int64 (q.provisioned_storage_gib -ℤ previous.storage_gib) +ℤ request.storage_gib) in
    let placed = place now request found q.reservations in
    if exceeds q.limits a r s
    then err quota_exceeded
    else ok (
      record q {
        reserved_active = max32 (pos 0) a;
        retained = max32 (pos 0) r;
        provisioned_storage_gib = max64 (pos 0) s;
        reservations = placed.0;
      },
      placed.1,
    )

pub reconcile_found :
    ℕ
    → ReservationRequest
    → Option QuotaReservation
    → UserQuota
    → Result QuotaError (UserQuota × Bool)
unfolding same_values move_reservation
reconcile_found now request none q =
    if same_values no_reservation request
    then ok (q, false)
    else move_reservation now request none no_reservation q
reconcile_found now request (some p) q =
    if same_values p request && p.sandbox_name == request.sandbox_name
    then ok (q, false)
    else move_reservation now request (some p) p q

-- The function that `ReconcileReservation` hands to `retry`.
pub reconcile_mutation : ℕ → ReservationRequest → Mutation
unfolding reconcile_found find_reservation
reconcile_mutation now request q =
    reconcile_found now request (find_reservation request.id q.reservations) q

pub release_found : String → Option QuotaReservation → UserQuota → UserQuota × Bool
unfolding remove_reservation max32 max64
release_found id none q = (q, false)
release_found id (some r) q = (
  record q {
    reserved_active = max32 (pos 0) (int32 (q.reserved_active -ℤ r.active));
    retained = max32 (pos 0) (int32 (q.retained -ℤ r.retained));
    provisioned_storage_gib = max64 (pos 0) (int64 (q.provisioned_storage_gib -ℤ r.storage_gib));
    reservations = remove_reservation id q.reservations;
  },
  true,
)

-- The function that `Release` hands to `retry`.
pub release_mutation : String → Mutation
unfolding release_found find_reservation
release_mutation id q = ok (release_found id (find_reservation id q.reservations) q)
