-- ===== src/Lifecycle/Activity.antt =====
-- internal/lifecycle/activity.go: when an idle sandbox is stopped. Instants and durations are
-- nanoseconds, as numbers; the idle timeout is not negative.
pub mod Idle
pub mod Recheck
mod Examples
use aksagent_sandbox.Base.{
  ℕ, ◌+◌, ◌-◌, ◌*◌, Bool, true, false, not, ◌&&◌, Option, none, some, List, [], ◌∷◌, ltb, leb,
  if◌then◌else◌,
}

-- `unset` stands for every value that the switch of the code does not name.
pub data JobState : Type 0 where
  pending running completed failed stopped unset : JobState

-- The part of a DevSandboxJob that is read here.
pub record JobSummary : Type 0 where
  pub state : JobState
  pub completed_at : Option ℕ

-- The part of a Lease that is read here.
pub record ActivityLease : Type 0 where
  pub renew_time : Option ℕ

pub record ActivityResult : Type 0 where
  pub last_activity : ℕ
  pub idle_deadline : ℕ
  pub has_live_lease : Bool
  pub has_running_job : Bool
  pub next_check : ℕ
  pub should_idle_stop : Bool

abbrev pub second : ℕ
second = 1_000_000_000

abbrev pub connection_stale_after : ℕ
connection_stale_after = 90 * second

-- `if t.After(last) { last = t }`
abbrev pub latest : ℕ → ℕ → ℕ
latest last t = if ltb last t then t else last

abbrev pub renewal : Option ActivityLease → Option ℕ
renewal none = none
renewal (some l) = l.renew_time

last_renewed : ℕ → Option ℕ → ℕ
last_renewed baseline none = baseline
last_renewed baseline (some t) = latest baseline t

-- `now.Sub(renewed) <= ConnectionStaleAfter`; a renewal in the future counts as live.
is_live : ℕ → Option ℕ → Bool
is_live now none = false
is_live now (some t) = leb (now - t) connection_stale_after

-- The loop over the jobs, with its variables `running` and `last`.
latest_completion : Option ℕ → ℕ → ℕ
latest_completion none last = last
latest_completion (some t) last = latest last t

job_step : JobSummary → JobState → Bool × ℕ → Bool × ℕ
unfolding latest_completion
job_step j pending (run, last) = (true, last)
job_step j running (run, last) = (true, last)
job_step j completed (run, last) = (run, latest_completion j.completed_at last)
job_step j failed (run, last) = (run, latest_completion j.completed_at last)
job_step j stopped (run, last) = (run, latest_completion j.completed_at last)
job_step j unset (run, last) = (run, last)

scan_jobs : List JobSummary → Bool × ℕ → Bool × ℕ
unfolding job_step
scan_jobs [] s = s
scan_jobs (j ∷ js) s = scan_jobs js (job_step j j.state s)

sooner : Bool → Option ℕ → ℕ → ℕ
sooner true (some t) deadline =
    if ltb (t + connection_stale_after) deadline then t + connection_stale_after else deadline
sooner _ _ deadline = deadline

unfoldable pub evaluate_activity :
    ℕ → ℕ → ℕ → Option ActivityLease → List JobSummary → ActivityResult
unfolding last_renewed is_live scan_jobs sooner
evaluate_activity now baseline idle_timeout lease jobs =
    let live = is_live now (renewal lease) in
    let (run, last) = scan_jobs jobs (false, last_renewed baseline (renewal lease)) in
    let deadline = last + idle_timeout in
    record {
      last_activity = last;
      idle_deadline = deadline;
      has_live_lease = live;
      has_running_job = run;
      next_check =
          if run then now + connection_stale_after else sooner live (renewal lease) deadline;
      should_idle_stop = not run && not live && not (ltb now deadline);
    }
