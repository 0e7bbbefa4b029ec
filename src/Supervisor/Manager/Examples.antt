-- ===== src/Supervisor/Manager/Examples.antt =====
-- A job that starts, is canceled by the shutdown and ends.
use aksagent_sandbox.Base.{◌≤◌, ◌≡◌, refl, true, false, none, some, ok, []}
use aksagent_sandbox.Base.Int.{pos}
use aksagent_sandbox.Supervisor.Manager.{
  Job, Manager, ManagedJob, new_manager, start, new_job, no_error, exit_result, finish_job,
  shutdown, is_active, find_job, awaited, job_stopped,
}
use aksagent_sandbox.Supervisor.Manager.Steps.{Step, Steps, here, next, starts, shuts, finishes}
use aksagent_sandbox.Supervisor.Manager.Drained.{drains}
use aksagent_sandbox.Supervisor.Manager.Sound.{IsSound, reachable-IsSound}
use aksagent_sandbox.Supervisor.Manager.Ended.{IsListed, Steps-IsListed}

abbrev busy : Manager
busy = (start "job-a" 5 (ok 1) new_manager).1

abbrev closing : Manager
closing = shutdown busy

abbrev ended : Manager
ended = finish_job "job-a" 9 (exit_result false no_error true) closing

abbrev left : ManagedJob
left = record (new_job "job-a" 5 1) { canceled = true }

abbrev stopped_job : Job
stopped_job = record {
  id = "job-a";
  state = job_stopped;
  started_at = 5;
  ended_at = some 9;
  exit_code = some (pos 0);
}

is_new : find_job "job-a" [] ≡ none
unfolding find_job
is_new = refl

is_left : find_job "job-a" closing.jobs ≡ some left
unfolding find_job shutdown start new_job
is_left = refl

left_active : is_active left.summary.state ≡ true
unfolding is_active new_job
left_active = refl

finishing : Step closing ended
finishing = finishes "job-a" 9 false no_error true closing left is_left left_active (λ _. refl)

closing_down : closing.shutting_down ≡ true
unfolding shutdown start new_job
closing_down = refl

drains_example : (ended.shutting_down ≡ true) × (awaited ended ≤ awaited closing)
drains_example = drains closing ended (next closing ended ended finishing (here ended)) closing_down

all-Steps : Steps new_manager ended
all-Steps =
    next new_manager busy ended (starts "job-a" 5 (ok 1) new_manager is_new)
      (next busy closing ended (shuts busy) (next closing ended ended finishing (here ended)))

reachable-IsSound_example : IsSound ended
reachable-IsSound_example = reachable-IsSound ended all-Steps

stopped_over : is_active stopped_job.state ≡ false
unfolding is_active
stopped_over = refl

ended-IsListed : IsListed "job-a" stopped_job ended
unfolding find_job finish_job exit_result shutdown start new_job
ended-IsListed = (_, refl, refl)

Steps-IsListed_example : IsListed "job-a" stopped_job (shutdown ended)
Steps-IsListed_example =
    Steps-IsListed "job-a" stopped_job stopped_over ended (shutdown ended)
      (next ended (shutdown ended) (shutdown ended) (shuts ended) (here (shutdown ended)))
      ended-IsListed
