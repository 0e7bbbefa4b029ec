-- ===== src/Lifecycle/Activity/Idle.antt =====
-- internal/lifecycle/activity.go: a sandbox is stopped exactly when nothing has used it for the
-- idle timeout.
use aksagent_sandbox.Base.{
  ℕ, suc, ◌+◌, ◌≤◌, ◌≡◌, refl, ◌↔◌, Bool, true, false, Option, none, some, List, [], ◌∷◌, arith,
  All,
}
use aksagent_sandbox.Lifecycle.Activity.{
  JobState, pending, running, completed, failed, stopped, unset, JobSummary, ActivityLease,
  connection_stale_after, renewal, last_renewed, is_live, latest_completion, job_step, scan_jobs,
  evaluate_activity,
}

abbrev pub IsActive : JobState → Type 0
IsActive pending = Unit {0}
IsActive running = Unit {0}
IsActive _ = ⊥

-- The times that a finished job counts for.
abbrev pub finished_at : JobState → Option ℕ → Option ℕ
finished_at completed t = t
finished_at failed t = t
finished_at stopped t = t
finished_at _ t = none

-- `t`, if there is one, lies the duration `d` or more before `now`.
abbrev pub IsOld : ℕ → ℕ → Option ℕ → Type 0
IsOld now d none = Unit {0}
IsOld now d (some t) = t + d ≤ now

-- Nothing uses the sandbox: no job is pending or running, the lease was not renewed within the
-- last 90 seconds, and each trace of use is as old as the idle timeout.
pub record IsIdle (now baseline idle_timeout : ℕ) (lease : Option ActivityLease)
    (jobs : List JobSummary) : Type 0 where
  pub no_job : All (λ j. ¬ IsActive j.state) jobs
  pub no_connection : IsOld now (suc connection_stale_after) (renewal lease)
  pub old_baseline : baseline + idle_timeout ≤ now
  pub old_renewal : IsOld now idle_timeout (renewal lease)
  pub old_jobs : All (λ j. IsOld now idle_timeout (finished_at j.state j.completed_at)) jobs

-- The idle jobs, with the state of the loop before them.
abbrev IsIdleScan : ℕ → ℕ → List JobSummary → Bool × ℕ → Type 0
IsIdleScan now d jobs s =
    (s.0 ≡ false)
    × (s.1 + d ≤ now)
    × All (λ j. ¬ IsActive j.state) jobs
    × All (λ j. IsOld now d (finished_at j.state j.completed_at)) jobs

completion-IsOld :
    (now d last : ℕ) (t : Option ℕ)
    → (latest_completion t last + d ≤ now) ↔ ((last + d ≤ now) × IsOld now d t)
unfolding latest_completion
completion-IsOld now d last none = ((λ h. (h, tt)), λ h. h.0)
completion-IsOld now d last (some t) = ((λ h. ground arith), λ h. ground arith)

job_step-idle :
    (now d : ℕ) (j : JobSummary) (s : JobState) (run : Bool) (last : ℕ)
    → (((job_step j s (run, last)).0 ≡ false) × ((job_step j s (run, last)).1 + d ≤ now)) ↔ (
        (run ≡ false)
        × (last + d ≤ now)
        × (¬ IsActive s)
        × IsOld now d (finished_at s j.completed_at))
unfolding job_step
job_step-idle now d j pending run last = ((λ h. cc (h.0)), λ h. absurd (h.2 tt))
job_step-idle now d j running run last = ((λ h. cc (h.0)), λ h. absurd (h.2 tt))
job_step-idle now d j unset run last = ((λ h. (h.0, h.1, (λ x. x), tt)), λ h. (h.0, h.1))
job_step-idle now d j completed run last =
    let c = completion-IsOld now d last j.completed_at in
    ((λ h. let k = c.0 h.1 in (h.0, k.0, (λ x. x), k.1)), λ h. (h.0, c.1 (h.1, h.3)))
job_step-idle now d j failed run last =
    let c = completion-IsOld now d last j.completed_at in
    ((λ h. let k = c.0 h.1 in (h.0, k.0, (λ x. x), k.1)), λ h. (h.0, c.1 (h.1, h.3)))
job_step-idle now d j stopped run last =
    let c = completion-IsOld now d last j.completed_at in
    ((λ h. let k = c.0 h.1 in (h.0, k.0, (λ x. x), k.1)), λ h. (h.0, c.1 (h.1, h.3)))

-- What the loop over the jobs leaves is idle exactly if all of them are.
scan_jobs-idle :
    (now d : ℕ) (jobs : List JobSummary) (run : Bool) (last : ℕ)
    → (((scan_jobs jobs (run, last)).0 ≡ false) × ((scan_jobs jobs (run, last)).1 + d ≤ now))
      ↔ IsIdleScan now d jobs (run, last)
unfolding scan_jobs
scan_jobs-idle now d [] run last = ((λ h. (h.0, h.1, tt, tt)), λ h. (h.0, h.1))
scan_jobs-idle now d (j ∷ js) run last =
    let (run', last') = job_step j j.state (run, last) in
    let rest = scan_jobs-idle now d js run' last' in
    let first = job_step-idle now d j j.state run last in
    (
      (λ h. let k = rest.0 h in let f = first.0 (k.0, k.1) in (f.0, f.1, (f.2, k.2), (f.3, k.3))),
      λ h. let f = first.1 (h.0, h.1, h.2.0, h.3.0) in rest.1 (f.0, f.1, h.2.1, h.3.1),
    )

last_renewed-IsOld :
    (now d baseline : ℕ) (t : Option ℕ)
    → (last_renewed baseline t + d ≤ now) ↔ ((baseline + d ≤ now) × IsOld now d t)
unfolding last_renewed
last_renewed-IsOld now d baseline none = ((λ h. (h, tt)), λ h. h.0)
last_renewed-IsOld now d baseline (some t) = ((λ h. ground arith), λ h. ground arith)

is_live-IsOld :
    (now : ℕ) (t : Option ℕ) → (is_live now t ≡ false) ↔ IsOld now (suc connection_stale_after) t
unfolding is_live
is_live-IsOld now none = ((λ h. tt), λ h. refl)
is_live-IsOld now (some t) = ((λ h. ground arith), λ h. ground arith)

-- The answer as a test on what the loop leaves.
stop_test :
    (now baseline idle_timeout : ℕ) (lease : Option ActivityLease) (jobs : List JobSummary)
    → let s = scan_jobs jobs (false, last_renewed baseline (renewal lease)) in
      ((evaluate_activity now baseline idle_timeout lease jobs).should_idle_stop ≡ true)
      ↔ ((is_live now (renewal lease) ≡ false) × ((s.0 ≡ false) × (s.1 + idle_timeout ≤ now)))
unfolding evaluate_activity
stop_test now baseline idle_timeout lease jobs = ((λ h. ground arith), λ h. ground arith)

-- A sandbox is to be stopped exactly when it is idle: no job pending or running, no renewal of
-- its lease in the last 90 seconds, and every trace of use at least the idle timeout old.
pub should_idle_stop-iff-IsIdle :
    (now baseline idle_timeout : ℕ) (lease : Option ActivityLease) (jobs : List JobSummary)
    → ((evaluate_activity now baseline idle_timeout lease jobs).should_idle_stop ≡ true)
      ↔ IsIdle now baseline idle_timeout lease jobs
should_idle_stop-iff-IsIdle now baseline d lease jobs =
    let test = stop_test now baseline d lease jobs in
    let live = is_live-IsOld now (renewal lease) in
    let scan = scan_jobs-idle now d jobs false (last_renewed baseline (renewal lease)) in
    let old = last_renewed-IsOld now d baseline (renewal lease) in
    (
      (λ h.
          let k = test.0 h in
          let s = scan.0 k.1 in
          let o = old.0 s.1 in
          record {
            no_job = s.2;
            no_connection = live.0 k.0;
            old_baseline = o.0;
            old_renewal = o.1;
            old_jobs = s.3;
          }),
      λ i. test.1 (
        live.1 i.no_connection,
        scan.1 (refl, old.1 (i.old_baseline, i.old_renewal), i.no_job, i.old_jobs),
      ),
    )
