-- ===== src/Lifecycle/Activity/Examples.antt =====
-- A sandbox with a finished job, checked while its connection is live and after.
use aksagent_sandbox.Base.{
  ◌+◌, ℕ, ◌*◌, ◌≡◌, refl, ◌↔◌, true, false, Option, some, List, [], ◌∷◌, arith,
}
use aksagent_sandbox.Lifecycle.Activity.{
  completed, JobSummary, ActivityLease, evaluate_activity, second,
}
use aksagent_sandbox.Lifecycle.Activity.Idle.{IsIdle, should_idle_stop-iff-IsIdle}
use aksagent_sandbox.Lifecycle.Activity.Recheck.{no_stop_before_next_check, stop_from_next_check}

abbrev lease : Option ActivityLease
lease = some (record { renew_time = some (100 * second) })

abbrev jobs : List JobSummary
jobs = record { state = completed; completed_at = some (150 * second) } ∷ []

abbrev idle_timeout : ℕ
idle_timeout = 600 * second

should_idle_stop-iff-IsIdle_example :
    ((evaluate_activity (750 * second) 0 idle_timeout lease jobs).should_idle_stop ≡ true)
    ↔ IsIdle (750 * second) 0 idle_timeout lease jobs
should_idle_stop-iff-IsIdle_example =
    should_idle_stop-iff-IsIdle (750 * second) 0 idle_timeout lease jobs

stops : (evaluate_activity (750 * second) 0 idle_timeout lease jobs).should_idle_stop ≡ true
unfolding evaluate_activity
stops = refl

no_stop_before_next_check_example :
    (evaluate_activity (189 * second) 0 idle_timeout lease jobs).should_idle_stop ≡ false
unfolding evaluate_activity
no_stop_before_next_check_example =
    no_stop_before_next_check (120 * second) (189 * second) 0 idle_timeout lease jobs (omega arith)

stop_from_next_check_example :
    let r = evaluate_activity (400 * second) 0 idle_timeout lease jobs in
    (r.next_check ≡ r.last_activity + idle_timeout)
    × (r.idle_deadline ≡ r.last_activity + idle_timeout)
    × ((evaluate_activity (800 * second) 0 idle_timeout lease jobs).should_idle_stop ≡ true)
unfolding evaluate_activity
stop_from_next_check_example =
    stop_from_next_check (400 * second) (800 * second) 0 idle_timeout lease jobs refl refl
      (omega arith)
