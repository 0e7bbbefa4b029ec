-- ===== src/Operator/Render/Shutdown.antt =====
-- internal/operator/reconciler.go and render.go: the shutdown time of a sandbox that is to run.
use aksagent_sandbox.Base.{
  ℕ, ◌+◌, ◌≤◌, ◌<◌, ◌≡◌, ◌⊎◌, refl, true, false, not, ◌&&◌, ltb, arith, List, Option, some,
  Bool-cases, inl, inr,
}
use aksagent_sandbox.ApiTypes.{desire_running}
use aksagent_sandbox.Lifecycle.Activity.{
  ActivityResult, ActivityLease, JobSummary, evaluate_activity, second,
}
use aksagent_sandbox.Operator.Objects.{DevSandbox, Template, Upstream}
use aksagent_sandbox.Operator.Status.{is_phase_running, idle_timeout}
use aksagent_sandbox.Operator.Render.{
  RenderOptions, in_seconds, render_upstream, starting_shutdown, live_shutdown, shutdown_time,
}
use aksagent_sandbox.Operator.Render.Pinned.{render_upstream-IsPinned}

-- A time that is a second ahead is still ahead when it is cut to seconds.
in_seconds-later : (now t : ℕ) → now + second ≤ t → now < in_seconds t
unfolding in_seconds
in_seconds-later now t h = omega arith

-- A timeout is given in seconds.
timeout_second : (s : DevSandbox) → 0 < idle_timeout s → second ≤ idle_timeout s
timeout_second s h = omega arith

-- The sandbox does not run yet, or a job does, or its idle deadline has come, or is a second ahead.
pub data IsAway (now : ℕ) (s : DevSandbox) (a : ActivityResult) : Type 0 where
  starts : is_phase_running s.status.phase ≡ false → IsAway now s a
  works : a.has_running_job ≡ true → IsAway now s a
  late : a.idle_deadline ≤ now → IsAway now s a
  early : now + second ≤ a.idle_deadline → IsAway now s a

live_shutdown-ahead :
    (now : ℕ) (s : DevSandbox) (a : ActivityResult) (t : ℕ)
    → second ≤ idle_timeout s
    → (now + second ≤ t) ⊎ ((t ≤ now) × (a.has_live_lease ≡ true))
    → now + second ≤ live_shutdown now s a t
unfolding live_shutdown
live_shutdown-ahead now s a t h (inl k) = ground arith
live_shutdown-ahead now s a t h (inr k) = ground arith

-- The deadline of a running sandbox, when there is no running job.
deadline-ahead :
    (now : ℕ) (s : DevSandbox) (a : ActivityResult)
    → a.should_idle_stop
      ≡ (not a.has_running_job && not a.has_live_lease && not (ltb now a.idle_deadline))
    → a.should_idle_stop ≡ false
    → a.has_running_job ≡ false
    → (a.idle_deadline ≤ now) ⊎ (now + second ≤ a.idle_deadline)
    → (now + second ≤ a.idle_deadline) ⊎ ((a.idle_deadline ≤ now) × (a.has_live_lease ≡ true))
deadline-ahead now s a e k idle (inl l) = inr (l, ground arith)
deadline-ahead now s a e k idle (inr l) = inl l

away :
    (now : ℕ) (s : DevSandbox) (a : ActivityResult)
    → is_phase_running s.status.phase ≡ true
    → a.has_running_job ≡ false
    → IsAway now s a
    → (a.idle_deadline ≤ now) ⊎ (now + second ≤ a.idle_deadline)
away now s a r j (starts p) = ground arith
away now s a r j (works p) = ground arith
away now s a r j (late p) = inl p
away now s a r j (early p) = inr p

ahead :
    (now : ℕ) (s : DevSandbox) (a : ActivityResult)
    → a.should_idle_stop
      ≡ (not a.has_running_job && not a.has_live_lease && not (ltb now a.idle_deadline))
    → second ≤ idle_timeout s
    → (is_phase_running s.status.phase && a.should_idle_stop) ≡ false
    → IsAway now s a
    → now + second ≤ shutdown_time now s a desire_running
unfolding shutdown_time starting_shutdown
ahead now s a e h k far = elim (Bool-cases a.has_running_job) [
  | inl run ↦ rw run (omega arith)
  | inr idle ↦ rw idle (
      live_shutdown-ahead now s a _ h (elim (Bool-cases (is_phase_running s.status.phase)) [
        | inl old ↦ rw old (deadline-ahead now s a e (rw old at k) idle (away now s a old idle far))
        | inr new ↦ rw new (inl (omega arith))
      ]))
]

-- A sandbox that is to run is never rendered with a shutdown time that has come: when its idle timeout
-- is positive, the activity of this pass does not stop it if it runs, and it does not run yet, or a
-- job does, or its idle deadline has come or is at least a second ahead.
pub shutdown_time-later :
    (now since : ℕ) (s d : DevSandbox) (lease : Option ActivityLease) (jobs : List JobSummary)
    (t : Template) (o : RenderOptions) (u : Upstream)
    → 0 < idle_timeout s
    → (is_phase_running s.status.phase
        && (evaluate_activity now since (idle_timeout s) lease jobs).should_idle_stop)
      ≡ false
    → IsAway now s (evaluate_activity now since (idle_timeout s) lease jobs)
    → o.shutdown_time
      ≡ shutdown_time now s (evaluate_activity now since (idle_timeout s) lease jobs) desire_running
    → render_upstream d t o ≡ some u
    → now < u.spec.shutdown_time
unfolding evaluate_activity
shutdown_time-later now since s d lease jobs t o u h k far e r =
    let late =
      ahead now s (evaluate_activity now since (idle_timeout s) lease jobs) refl
        (timeout_second s h) k far in
    rw ((render_upstream-IsPinned d t o u r).shutdown, e) (in_seconds-later now _ late)
