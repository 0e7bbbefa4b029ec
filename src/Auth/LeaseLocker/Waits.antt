-- ===== src/Auth/LeaseLocker/Waits.antt =====
-- internal/auth/lease.go: the loop of Lock ends, and with the lease when it ends well.
use aksagent_sandbox.Base.{
  ℕ, zero, suc, ◌≤◌, ◌<◌, ◌≡◌, ◌≢◌, refl, String, Bool, true, false, not, ◌&&◌, Option, none, some,
  Result, ok, err, arith, Bool-cases, inl, inr,
}
use aksagent_sandbox.Auth.LeaseLocker.{
  Lease, GetError, not_found, get_fault, WriteError, already_exists, conflict, write_fault,
  LockError, Client, expired, held_by_other, new_lease, taken_over, created, updated, with_lease,
  try_acquire, Answer, waited, tried, lock_loop,
}
use aksagent_sandbox.Auth.LeaseLocker.Exclusion.{Server, IsAcquired}

-- The waits that are left until the context is done.
pub record Deadline {W : Type 0} (c : Client W) : Type 0 where
  pub left : W → ℕ
  pub get_le : (w : W) → left (c.get w).1 ≤ left w
  pub create_le : (l : Lease) (w : W) → left (c.create l w).1 ≤ left w
  pub update_le : (l : Lease) (w : W) → left (c.update l w).1 ≤ left w
  pub wait_lt : (w w' : W) → c.wait w ≡ (false, w') → left w' < left w

module _ {W : Type 0} (c : Client W) (configured : ℕ) (holder : String) where
  module _ (deadline : Deadline c) where
    open deadline use {left}

    created_world : (p : Option WriteError × W) → (created c configured holder p).1 ≡ p.1
    unfolding created
    created_world (none, w) = refl
    created_world (some already_exists, w) = refl
    created_world (some conflict, w) = refl
    created_world (some (write_fault e), w) = refl

    updated_world : (p : Option WriteError × W) → (updated c configured holder p).1 ≡ p.1
    unfolding updated
    updated_world (none, w) = refl
    updated_world (some already_exists, w) = refl
    updated_world (some conflict, w) = refl
    updated_world (some (write_fault e), w) = refl

    with_lease_le :
        (p : Result GetError Lease × W) → left (with_lease c configured holder p).1 ≤ left p.1
    unfolding with_lease
    with_lease_le (err not_found, w) =
        let l = new_lease c configured holder (c.now w) in
        rw (created_world (c.create l w)) (deadline.create_le l w)
    with_lease_le (err (get_fault e), w) = omega arith
    with_lease_le (ok l, w) =
        let now = c.now w in
        let l' = taken_over c configured holder l (expired configured l now) now in
        elim (Bool-cases
          (held_by_other holder l.holder_identity && not (expired configured l (c.now w)))) [
            | inl b ↦ rw (b) (omega arith)
            | inr b ↦ rw (b, updated_world (c.update l' w)) (deadline.update_le l' w)
          ]

    try_acquire_le : (w : W) → left (try_acquire c configured holder w).1 ≤ left w
    unfolding try_acquire
    try_acquire_le w = omega (arith, with_lease_le (c.get w), deadline.get_le w)

    abbrev Ends : Answer c configured holder → Type 0
    Ends p = p.0 ≢ none

    waited-Ends :
        (n : ℕ) (again : W → Answer c configured holder) (w : W) (p : Bool × W)
        → c.wait w ≡ p
        → ((w' : W) → left w' < n → Ends (again w'))
        → left w < suc n
        → Ends (waited c configured holder again p)
    unfolding waited
    waited-Ends n again w (true, w') h k lt = λ e. cc
    waited-Ends n again w (false, w') h k lt = k w' (omega (arith, deadline.wait_lt w w' h))

    tried-Ends :
        (n : ℕ) (again : W → Answer c configured holder) (p : Result LockError Bool × W)
        → ((w' : W) → left w' < n → Ends (again w'))
        → left p.1 < suc n
        → Ends (tried c configured holder again p)
    unfolding tried
    tried-Ends n again (err e, w) k lt = λ x. cc
    tried-Ends n again (ok true, w) k lt = λ x. cc
    tried-Ends n again (ok false, w) k lt = waited-Ends n again w (c.wait w) refl k lt

    -- With more tries than waits until the context is done, the loop of `Lock` returns.
    pub lock_loop_ends : (n : ℕ) (w : W) → left w < n → (lock_loop c configured holder n w).0 ≢ none
    unfolding lock_loop
    lock_loop_ends zero w lt = omega (arith, lt)
    lock_loop_ends (suc n) w lt =
        tried-Ends n (lock_loop c configured holder n) (try_acquire c configured holder w)
          (lock_loop_ends n) (omega (arith, try_acquire_le w))

  module _ (server : Server c) where
    -- The lease was acquired at some time.
    pub record IsLocked (w : W) : Type 0 where
      pub time : ℕ
      pub is_acquired : IsAcquired c server configured holder time w

    abbrev Locked : Answer c configured holder → Type 0
    Locked (some (ok tt), w) = IsLocked w
    Locked (some (err e), w) = Unit {0}
    Locked (none, w) = Unit {0}
