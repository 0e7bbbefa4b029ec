-- ===== src/Auth/LeaseLocker.antt =====
-- internal/auth/lease.go: KubernetesLeaseLocker, for the lease of one user. The API server, the
-- clock and the wait between two tries are calls that carry the state `W` of the world.
pub mod Expiry
pub mod Exclusion
pub mod Waits
mod Examples
use aksagent_sandbox.Base.{
  ℕ, zero, suc, ◌+◌, ◌*◌, ◌/◌, ◌≡◌, refl, String, Bool, true, false, not, ◌&&◌, ◌||◌, Option, none,
  some, ◌==◌, eqb, ltb, if◌then◌else◌, Result, ok, err,
}
use aksagent_sandbox.Auth.Session.{second}

-- A number of seconds that is not positive is given as 0; `version` is the resource version.
pub record Lease : Type 0 where
  pub holder_identity : Option String
  pub lease_duration_seconds : Option ℕ
  pub acquire_time : Option ℕ
  pub renew_time : Option ℕ
  pub version : ℕ

pub data GetError : Type 0 where
  not_found : GetError
  get_fault : ℕ → GetError

pub data WriteError : Type 0 where
  already_exists conflict : WriteError
  write_fault : ℕ → WriteError

pub data LockError : Type 0 where
  not_configured context_done : LockError
  read_failed create_failed : ℕ → LockError
  read_for_release_failed : ℕ → LockError
  acquire_failed release_failed : WriteError → LockError

pub record Client (W : Type 0) : Type 0 where
  pub get : W → Result GetError Lease × W
  pub create : Lease → W → Option WriteError × W
  pub update : Lease → W → Option WriteError × W
  pub now : W → ℕ
  -- The select between the context and the timer: whether the context is done.
  pub wait : W → Bool × W

-- `LeaseDuration`, with 0 where it is not positive.
unfoldable pub duration : ℕ → ℕ
duration configured = if eqb configured 0 then 30 * second else configured

or_else : Option ℕ → Option ℕ → Option ℕ
or_else (some t) _ = some t
or_else none t = t

lease_duration : ℕ → Option ℕ → ℕ
unfolding duration
lease_duration configured none = duration configured
lease_duration configured (some s) = if eqb s 0 then duration configured else s * second

pub expired_since : ℕ → ℕ → Option ℕ → Bool
expired_since length now none = true
expired_since length now (some renewed) = not (ltb now (renewed + length))

-- `expired`
pub expired : ℕ → Lease → ℕ → Bool
unfolding or_else lease_duration expired_since
expired configured l now =
    expired_since (lease_duration configured l.lease_duration_seconds) now
      (or_else l.renew_time l.acquire_time)

-- A holder that is set, not empty and not this one.
pub held_by_other : String → Option String → Bool
held_by_other holder none = false
held_by_other holder (some h) = not (h == "") && not (h == holder)

pub is_holder : String → Option String → Bool
is_holder holder none = false
is_holder holder (some h) = h == holder

module _ {W : Type 0} (c : Client W) (configured : ℕ) (holder : String) where
  abbrev pub new_lease : ℕ → Lease
  new_lease now = record {
    holder_identity = some holder;
    lease_duration_seconds = some (duration configured / second);
    acquire_time = some now;
    renew_time = some now;
    version = 0;
  }

  acquired_at : Bool → Option ℕ → ℕ → Option ℕ
  acquired_at true t now = some now
  acquired_at false none now = some now
  acquired_at false (some t) now = some t

  pub taken_over : Lease → Bool → ℕ → Lease
  unfolding acquired_at duration
  taken_over l late now = record {
    holder_identity = some holder;
    lease_duration_seconds = some (duration configured / second);
    acquire_time = acquired_at late l.acquire_time now;
    renew_time = some now;
    version = l.version;
  }

  pub created : Option WriteError × W → Result LockError Bool × W
  created (none, w) = (ok true, w)
  created (some already_exists, w) = (ok false, w)
  created (some conflict, w) = (ok false, w)
  created (some (write_fault e), w) = (err (create_failed e), w)

  pub updated : Option WriteError × W → Result LockError Bool × W
  updated (none, w) = (ok true, w)
  updated (some conflict, w) = (ok false, w)
  updated (some already_exists, w) = (err (acquire_failed already_exists), w)
  updated (some (write_fault e), w) = (err (acquire_failed (write_fault e)), w)

  pub with_lease : Result GetError Lease × W → Result LockError Bool × W
  unfolding created updated taken_over expired held_by_other
  with_lease (err not_found, w) = created (c.create (new_lease (c.now w)) w)
  with_lease (err (get_fault e), w) = (err (read_failed e), w)
  with_lease (ok l, w) =
      if held_by_other holder l.holder_identity && not (expired configured l (c.now w))
      then (ok false, w)
      else updated (c.update (taken_over l (expired configured l (c.now w)) (c.now w)) w)

  -- tryAcquire
  pub try_acquire : W → Result LockError Bool × W
  unfolding with_lease
  try_acquire w = with_lease (c.get w)

  pub cleared : Lease → ℕ → Lease
  cleared l now = record {
    holder_identity = some "";
    lease_duration_seconds = l.lease_duration_seconds;
    acquire_time = l.acquire_time;
    renew_time = some now;
    version = l.version;
  }

  pub written_back : Option WriteError × W → Option LockError × W
  written_back (none, w) = (none, w)
  written_back (some e, w) = (some (release_failed e), w)

  pub release_lease : Result GetError Lease × W → Option LockError × W
  unfolding written_back cleared is_holder
  release_lease (err not_found, w) = (none, w)
  release_lease (err (get_fault e), w) = (some (read_for_release_failed e), w)
  release_lease (ok l, w) =
      if is_holder holder l.holder_identity
      then written_back (c.update (cleared l (c.now w)) w)
      else (none, w)

  -- release
  pub release : W → Option LockError × W
  unfolding release_lease
  release w = release_lease (c.get w)

  abbrev Answer : Type 0
  Answer = Option (Result LockError Unit) × W

  waited : (W → Answer) → Bool × W → Answer
  waited again (true, w) = (some (err context_done), w)
  waited again (false, w) = again w

  pub tried : (W → Answer) → Result LockError Bool × W → Answer
  unfolding waited
  tried again (err e, w) = (some (err e), w)
  tried again (ok true, w) = (some (ok tt), w)
  tried again (ok false, w) = waited again (c.wait w)

  -- The loop of `Lock`, for at most the given number of tries; `none` when they are used up.
  -- `holder` carries the number that `Lock` draws, `ok tt` stands for the unlock function.
  pub lock_loop : ℕ → W → Answer
  unfolding tried try_acquire
  lock_loop zero w = (none, w)
  lock_loop (suc n) w = let again = lock_loop n in tried again (try_acquire w)
