-- ===== src/Lifecycle/Activity/Recheck.antt =====
-- internal/lifecycle/activity.go: the time of the next check is neither late nor early.
use aksagent_sandbox.Base.{
  ℕ, ◌+◌, ◌≤◌, ◌<◌, ◌≡◌, refl, Bool, true, false, Option, none, some, List, arith, leb,
}
use aksagent_sandbox.Lifecycle.Activity.{
  JobSummary, ActivityLease, renewal, sooner, is_live, last_renewed, scan_jobs, evaluate_activity,
}

sooner-le : (live : Bool) (t : Option ℕ) (deadline : ℕ) → sooner live t deadline ≤ deadline
unfolding sooner
sooner-le true (some t) deadline = ground arith
sooner-le true none deadline = ground arith
sooner-le false t deadline = ground arith

-- As long as no new use is seen, no sandbox is to be stopped before the time of the next check.
pub no_stop_before_next_check :
    (now later baseline idle_timeout : ℕ) (lease : Option ActivityLease) (jobs : List JobSummary)
    → later < (evaluate_activity now baseline idle_timeout lease jobs).next_check
    → (evaluate_activity later baseline idle_timeout lease jobs).should_idle_stop ≡ false
unfolding evaluate_activity
no_stop_before_next_check now later baseline d lease jobs h =
    let last = (scan_jobs jobs (false, last_renewed baseline (renewal lease))).1 in
    ground (arith, sooner-le (is_live now (renewal lease)) (renewal lease) (last + d))

is_live_later :
    (now later : ℕ) (t : Option ℕ) → is_live now t ≡ false → now ≤ later → is_live later t ≡ false
unfolding is_live
is_live_later now later none h le = refl
is_live_later now later (some t) h le = ground arith

sooner_dead : (t : Option ℕ) (deadline : ℕ) → sooner false t deadline ≡ deadline
unfolding sooner
sooner_dead t deadline = refl

-- With no job running and no live connection, the time of the next check and the idle deadline are
-- the last activity and the idle timeout, and a later check stops the sandbox exactly from then on,
-- when it sees no new use.
pub stop_from_next_check :
    (now later baseline idle_timeout : ℕ) (lease : Option ActivityLease) (jobs : List JobSummary)
    → let r = evaluate_activity now baseline idle_timeout lease jobs in
      r.has_running_job ≡ false
      → r.has_live_lease ≡ false
      → now ≤ later
      → (r.next_check ≡ r.last_activity + idle_timeout)
        × (r.idle_deadline ≡ r.last_activity + idle_timeout)
        × ((evaluate_activity later baseline idle_timeout lease jobs).should_idle_stop
            ≡ leb r.next_check later)
unfolding evaluate_activity
stop_from_next_check now later baseline d lease jobs run live h =
    let dead =
      sooner_dead (renewal lease)
        ((scan_jobs jobs (false, last_renewed baseline (renewal lease))).1 + d) in
    (ground (arith, dead), refl, ground (arith, is_live_later now later (renewal lease), dead))
