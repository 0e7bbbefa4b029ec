-- ===== src/Auth/LeaseLocker/Exclusion.antt =====
-- internal/auth/lease.go: who may lose a lease.
use aksagent_sandbox.Base.{ℕ, ◌≡◌, String, Bool, true, false, Option, none, some, Result, ok, err}
use aksagent_sandbox.Auth.LeaseLocker.Expiry.{IsLapsed}
use aksagent_sandbox.Auth.LeaseLocker.{Lease, LockError, Client}

-- Optimistic concurrency: the lease that is stored, and the one that the last successful write of
-- this client replaced. An update succeeds only on the lease that was read with its version.
pub record Server {W : Type 0} (c : Client W) : Type 0 where
  pub stored : W → Lease
  pub replaced : W → Option Lease
  pub create_ok :
      (l : Lease) (w w' : W)
      → c.create l w ≡ (none, w')
      → ((stored w').holder_identity ≡ l.holder_identity)
        × ((stored w').renew_time ≡ l.renew_time)
        × (replaced w' ≡ none)
  pub update_ok :
      (old l : Lease) (w w1 w' : W)
      → c.get w ≡ (ok old, w1)
      → l.version ≡ old.version
      → c.update l w1 ≡ (none, w')
      → ((stored w').holder_identity ≡ l.holder_identity)
        × ((stored w').renew_time ≡ l.renew_time)
        × (replaced w' ≡ some old)

-- The lease is no one's, this holder's, or has lapsed at the time.
pub data IsFree (configured : ℕ) (holder : String) (l : Lease) (now : ℕ) : Type 0 where
  unheld : l.holder_identity ≡ none → IsFree configured holder l now
  emptied : l.holder_identity ≡ some "" → IsFree configured holder l now
  own : l.holder_identity ≡ some holder → IsFree configured holder l now
  lapsed : IsLapsed configured l now → IsFree configured holder l now

module _ {W : Type 0} (c : Client W) (server : Server c) (configured : ℕ) (holder : String) where
  open server use {stored, replaced}

  -- The stored lease names this holder and was renewed at the time; what was replaced was free.
  pub record IsAcquired (now : ℕ) (w : W) : Type 0 where
    pub is_holder_now : (stored w).holder_identity ≡ some holder
    pub is_renewed : (stored w).renew_time ≡ some now
    pub was_free : (l : Lease) → replaced w ≡ some l → IsFree configured holder l now

  abbrev Acquired : ℕ → Result LockError Bool × W → Type 0
  Acquired now (ok true, w) = IsAcquired now w
  Acquired now (ok false, w) = Unit {0}
  Acquired now (err e, w) = Unit {0}
