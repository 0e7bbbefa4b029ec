-- ===== src/Lifecycle/Quota/Released.antt =====
-- internal/lifecycle/quota.go: what Release has done when it returns nil.
use aksagent_sandbox.Base.{
  ◌≡◌, ◌≢◌, ◌⊎◌, refl, inl, inr, String, true, false, none, some, List, [], ◌∷◌, ok, arith, eq_iff,
  Option-cases,
}
use aksagent_sandbox.Lifecycle.Quota.{
  UserQuota, QuotaReservation, find_reservation, remove_reservation, release_mutation,
}
use aksagent_sandbox.Lifecycle.Quota.Totals.{Distinct}
use aksagent_sandbox.Lifecycle.Quota.Records.{find-remove_self}
use aksagent_sandbox.Lifecycle.Quota.Retry.{QuotaStore, QuotaManager, release}
use aksagent_sandbox.Lifecycle.Quota.Retry.Trace.{
  Reaches, Concluded, left_alone, written, release-Concluded,
}

find-remove_other :
    (id other : String) (rs : List QuotaReservation)
    → other ≢ id
    → find_reservation other (remove_reservation id rs) ≡ find_reservation other rs
unfolding find_reservation remove_reservation
find-remove_other id other [] h = refl
find-remove_other id other (x ∷ rs) h =
    ground (arith, find-remove_other id other rs h, eq_iff x.id id, eq_iff x.id other)

-- `q'` is `q` without the reservation `id`: it does not list it, and lists the others as before.
pub record IsWithout (id : String) (q q' : UserQuota) : Type 0 where
  pub is_off : find_reservation id q'.reservations ≡ none
  pub is_kept :
      (other : String)
      → other ≢ id
      → find_reservation other q'.reservations ≡ find_reservation other q.reservations

release_same :
    (id : String) (q q' : UserQuota)
    → release_mutation id q ≡ ok (q', false)
    → find_reservation id q.reservations ≡ none
unfolding release_mutation
release_same id q q' h = elim (Option-cases (find_reservation id q.reservations)) [
  | inl e ↦ e
  | inr (p, e) ↦ cc (rw e at h)
]

release-IsWithout :
    (id : String) (q q' : UserQuota)
    → Distinct q.reservations
    → release_mutation id q ≡ ok (q', true)
    → IsWithout id q q'
unfolding release_mutation
release-IsWithout id q q' d h = record {
  is_off = ground (arith, find-remove_self id q.reservations d);
  is_kept = λ other k. ground (arith, find-remove_other id other q.reservations k);
}

module _ {W : Type 0} (store : QuotaStore W) (id : String) (w w' : W) where
  -- The last calls between `w` and `w'` were a read of an object that does not list the reservation;
  -- or a read and an accepted write of the object that was read, without it.
  pub record IsReleased : Type 0 where
    pub w1 : W
    pub w2 : W
    pub q : UserQuota
    pub reached : Reaches store w w1
    pub is_read : store.get w1 ≡ (ok q, w2)
    pub outcome :
        ((find_reservation id q.reservations ≡ none) × (w2 ≡ w'))
        ⊎ ((q' : UserQuota) × IsWithout id q q' × (store.update_status q' w2 ≡ (none, w')))

  Concluded-IsReleased :
      ((q : UserQuota) (v v' : W)
        → Reaches store w v
        → store.get v ≡ (ok q, v')
        → Distinct q.reservations)
      → Concluded store (release_mutation id) w w'
      → IsReleased
  Concluded-IsReleased distinct (left_alone v q q' r g e) = record {
    w1 = v;
    w2 = w';
    q = q;
    reached = r;
    is_read = g;
    outcome = inl (release_same id q q' e, refl);
  }
  Concluded-IsReleased distinct (written v v' q q' r g e u) = record {
    w1 = v;
    w2 = v';
    q = q;
    reached = r;
    is_read = g;
    outcome = inr (q', release-IsWithout id q q' (distinct q v v' r g) e, u);
  }

  -- When `Release` returns nil and no object that it reads lists an ID twice, its last calls
  -- of the store were a read of an object that does not list the reservation; or a read and an
  -- accepted write of an object that does not list it and lists every other one as the object that was
  -- read.
  pub release-IsReleased :
      (m : QuotaManager W)
      → m.store ≡ some store
      → ((q : UserQuota) (v v' : W)
          → Reaches store w v
          → store.get v ≡ (ok q, v')
          → Distinct q.reservations)
      → release m id w ≡ (none, w')
      → IsReleased
  release-IsReleased m s distinct h =
      Concluded-IsReleased distinct (release-Concluded store m id w w' s h)
