-- ===== src/Auth/LeaseLocker/Expiry.antt =====
-- internal/auth/lease.go: when a lease has expired.
use aksagent_sandbox.Base.{
  ℕ, ap, ◌+◌, ◌*◌, ◌≤◌, ◌≡◌, refl, true, Option, none, some, eqb, arith, Bool-cases, inl, inr,
}
use aksagent_sandbox.Auth.Session.{second}
use aksagent_sandbox.Auth.LeaseLocker.{
  Lease, duration, or_else, lease_duration, expired_since, expired,
}

-- The lease was last used at the time `t`: renewed, or acquired and never renewed.
pub data IsUsedAt (renewed acquired : Option ℕ) (t : ℕ) : Type 0 where
  renewed_at : renewed ≡ some t → IsUsedAt renewed acquired t
  acquired_at : renewed ≡ none → acquired ≡ some t → IsUsedAt renewed acquired t

-- A lease lasts its own number of seconds, when that is positive, and else the duration that is
-- configured, or thirty seconds when none is.
pub data LastsFor (configured : ℕ) (seconds : Option ℕ) (d : ℕ) : Type 0 where
  own_seconds : (n : ℕ) → seconds ≡ some n → 1 ≤ n → d ≡ n * second → LastsFor configured seconds d
  no_seconds : seconds ≡ none → d ≡ configured → 1 ≤ configured → LastsFor configured seconds d
  zero_seconds : seconds ≡ some 0 → d ≡ configured → 1 ≤ configured → LastsFor configured seconds d
  no_default : configured ≡ 0 → d ≡ 30 * second → LastsFor configured seconds d

-- No use of the lease is on record, or its duration has passed since the last one.
pub data IsLapsed (configured : ℕ) (l : Lease) (now : ℕ) : Type 0 where
  unused : l.renew_time ≡ none → l.acquire_time ≡ none → IsLapsed configured l now
  ran_out :
      (t d : ℕ)
      → IsUsedAt l.renew_time l.acquire_time t
      → LastsFor configured l.lease_duration_seconds d
      → t + d ≤ now
      → IsLapsed configured l now

duration-LastsFor :
    (configured : ℕ) (seconds : Option ℕ)
    → (1 ≤ configured → LastsFor configured seconds configured)
    → LastsFor configured seconds (duration configured)
unfolding duration
duration-LastsFor configured seconds h = elim (Bool-cases (eqb configured 0)) [
  | inl p ↦ no_default (ground arith) (rw p refl)
  | inr p ↦ let positive : 1 ≤ configured = ground arith in rw p (h positive)
]

lease_duration-LastsFor :
    (configured : ℕ) (seconds : Option ℕ)
    → LastsFor configured seconds (lease_duration configured seconds)
unfolding lease_duration
lease_duration-LastsFor configured none = duration-LastsFor configured none (no_seconds refl refl)
lease_duration-LastsFor configured (some n) = elim (Bool-cases (eqb n 0)) [
  | inl p ↦
      let zero : n ≡ 0 = ground arith in
      rw p (duration-LastsFor configured (some n) (zero_seconds (ap some zero) refl))
  | inr p ↦ own_seconds n refl (ground arith) (rw p refl)
]

expired_since-IsLapsed :
    (configured : ℕ) (l : Lease) (now : ℕ) (renewed acquired : Option ℕ)
    → l.renew_time ≡ renewed
    → l.acquire_time ≡ acquired
    → expired_since
        (lease_duration configured l.lease_duration_seconds)
        now
        (or_else renewed acquired)
      ≡ true
    → IsLapsed configured l now
unfolding or_else expired_since
expired_since-IsLapsed configured l now (some t) acquired r a h =
    ran_out t (lease_duration configured l.lease_duration_seconds) (renewed_at r)
      (lease_duration-LastsFor configured l.lease_duration_seconds) (ground arith)
expired_since-IsLapsed configured l now none (some t) r a h =
    ran_out t (lease_duration configured l.lease_duration_seconds) (acquired_at r a)
      (lease_duration-LastsFor configured l.lease_duration_seconds) (ground arith)
expired_since-IsLapsed configured l now none none r a h = unused r a

-- A lease that the locker takes for expired has lapsed.
pub expired-IsLapsed :
    (configured : ℕ) (l : Lease) (now : ℕ)
    → expired configured l now ≡ true
    → IsLapsed configured l now
unfolding expired
expired-IsLapsed configured l now h =
    expired_since-IsLapsed configured l now l.renew_time l.acquire_time refl refl h
