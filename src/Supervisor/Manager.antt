-- ===== src/Supervisor/Manager.antt =====
-- internal/supervisor/manager.go: Manager, with one function for each stretch of code that holds its
-- mutex. Processes, their contexts and channels are what the manager knows of them: a process has an
-- identity, and may be canceled; starting one and waiting for it are results that are passed in.
pub mod Steps
pub mod Drained
pub mod Sound
pub mod Ended
mod Examples
use aksagent_sandbox.Base.{
  ℕ, ◌+◌, ◌^◌, ◌%◌, String, Bool, true, false, not, ◌&&◌, ◌||◌, Option, none, some, List, [], ◌∷◌,
  ◌==◌, eqb, if◌then◌else◌, Result, ok, err, length, map,
}
use aksagent_sandbox.Base.Int.{ℤ, pos, eqb_ℤ}

pub data JobState : Type 0 where
  job_pending job_running job_completed job_failed job_stopped : JobState

pub record Job : Type 0 where
  pub id : String
  pub state : JobState
  pub started_at : ℕ
  pub ended_at : Option ℕ
  pub exit_code : Option ℤ

-- `canceled` is whether the context of the process is, which starts without a parent; `tree` is the
-- process.
pub record ManagedJob : Type 0 where
  pub summary : Job
  pub canceled : Bool
  pub tree : Option ℕ

-- A process that a caller waits for, or a connection; `canceled` is by the manager.
pub record Process : Type 0 where
  pub id : ℕ
  pub canceled : Bool

pub record Manager : Type 0 where
  pub jobs : List ManagedJob
  pub foreground : List Process
  pub connections : List Process
  pub next_connect : ℕ  -- uint64
  pub shutting_down : Bool
  pub last_activity : ℕ

pub record Command : Type 0 where
  pub executable : String
  pub directory : String

pub data Fault : Type 0 where
  executable_required directory_unavailable is_shutting_down start_failed not_exist : Fault

pub record ExitResult : Type 0 where
  pub exit_code : ℤ
  pub canceled : Bool

-- What waiting for a process gives.
pub data Waited : Type 0 where
  no_error other_error : Waited
  exited : ℤ → Waited

pub record ActivityStatus : Type 0 where
  pub last_activity : ℕ
  pub foreground_active : ℕ
  pub managed_jobs_active : ℕ

-- NewManager
abbrev pub new_manager : Manager
new_manager = record {
  jobs = [];
  foreground = [];
  connections = [];
  next_connect = 0;
  shutting_down = false;
  last_activity = 0;
}

-- Command.validate; `is_directory` is the answer of the file system.
pub validate : (String → Bool) → Command → Option Fault
validate is_directory c =
    if c.executable == ""
    then some executable_required
    else if not (c.directory == "") && not (is_directory c.directory)
    then some directory_unavailable
    else none

pub is_active : JobState → Bool
is_active job_pending = true
is_active job_running = true
is_active job_completed = false
is_active job_failed = false
is_active job_stopped = false

pub active_jobs : List ManagedJob → ℕ
unfolding is_active
active_jobs [] = 0
active_jobs (j ∷ js) =
    let rest = active_jobs js in if is_active j.summary.state then 1 + rest else rest

pub activity_status : Manager → ActivityStatus
unfolding active_jobs
activity_status m = record {
  last_activity = m.last_activity;
  foreground_active = length m.foreground + length m.connections;
  managed_jobs_active = active_jobs m.jobs;
}

-- Activity
pub activity : ℕ → Manager → Manager
activity now m = record m { last_activity = now }

pub without : ℕ → List Process → List Process
without id [] = []
without id (p ∷ ps) = let rest = without id ps in if eqb p.id id then rest else p ∷ rest

-- ConnectionContext: the identity of the new connection.
pub connect : ℕ → Manager → Result Fault ℕ × Manager
connect now m =
    if m.shutting_down
    then (err is_shutting_down, m)
    else let id = (m.next_connect + 1) % 2 ^ 64 in
      (
        ok id,
        record m {
          next_connect = id;
          connections = record { id = id; canceled = false } ∷ without id m.connections;
          last_activity = now;
        },
      )

pub has : ℕ → List Process → Bool
has id [] = false
has id (p ∷ ps) = eqb p.id id || has id ps

-- The release of a connection, which acts once.
pub release : ℕ → ℕ → Manager → Manager
unfolding has without
release id now m =
    if has id m.connections
    then record m { connections = without id m.connections; last_activity = now }
    else m

begun : ℕ → Result Fault ℕ → Manager → Result Fault ℕ × Manager
unfolding without
begun now (err e) m = (err e, m)
begun now (ok tree) m = (
  ok tree,
  record m {
    foreground = record { id = tree; canceled = false } ∷ without tree m.foreground;
    last_activity = now;
  },
)

-- Run and StartTerminal, up to the start of the process, whose result is given.
pub begin_foreground : ℕ → Result Fault ℕ → Manager → Result Fault ℕ × Manager
unfolding begun
begin_foreground now tree m =
    if m.shutting_down then (err is_shutting_down, m) else begun now tree m

-- Run and Terminal.Wait, once the process has ended.
pub end_foreground : ℕ → ℕ → Manager → Manager
unfolding without
end_foreground tree now m = record m { foreground = without tree m.foreground; last_activity = now }

pub find_job : String → List ManagedJob → Option ManagedJob
find_job id [] = none
find_job id (j ∷ js) = let rest = find_job id js in if j.summary.id == id then some j else rest

pub without_job : String → List ManagedJob → List ManagedJob
without_job id [] = []
without_job id (j ∷ js) =
    let rest = without_job id js in if j.summary.id == id then rest else j ∷ rest

pub update_job : String → (ManagedJob → ManagedJob) → List ManagedJob → List ManagedJob
update_job id f [] = []
update_job id f (j ∷ js) =
    let rest = update_job id f js in if j.summary.id == id then f j ∷ js else j ∷ rest

pub new_job : String → ℕ → ℕ → ManagedJob
new_job id now tree = record {
  summary = record {
    id = id;
    state = job_running;
    started_at = now;
    ended_at = none;
    exit_code = none;
  };
  canceled = false;
  tree = some tree;
}

started : String → ℕ → Result Fault ℕ → Manager → Result Fault Job × Manager
unfolding without_job new_job
started id now (err e) m = (err e, record m { jobs = without_job id m.jobs })
started id now (ok tree) m =
    let job = new_job id now tree in
    (ok job.summary, record m { jobs = job ∷ without_job id m.jobs; last_activity = now })

-- Start, of a valid command with a new identifier and the result of starting the process.
pub start : String → ℕ → Result Fault ℕ → Manager → Result Fault Job × Manager
unfolding started
start id now tree m = if m.shutting_down then (err is_shutting_down, m) else started id now tree m

-- exitResult
pub exit_result : Bool → Waited → Bool → ExitResult
exit_result windows no_error canceled = record { exit_code = pos 0; canceled = canceled }
exit_result windows (exited n) canceled = record { exit_code = n; canceled = canceled }
exit_result windows other_error true = record {
  exit_code = if windows then pos 1 else pos 137;
  canceled = true;
}
exit_result windows other_error false = record { exit_code = pos 1; canceled = false }

pub final_state : ExitResult → JobState
final_state r =
    if r.canceled
    then job_stopped
    else if eqb_ℤ r.exit_code (pos 0)
    then job_completed
    else job_failed

pub ended_job : ℕ → ExitResult → ManagedJob → ManagedJob
unfolding final_state
ended_job now r j = record j {
  summary = record j.summary {
    state = final_state r;
    ended_at = some now;
    exit_code = some r.exit_code;
  };
  canceled = true;
  tree = none;
}

-- waitJob, once the process has ended.
pub finish_job : String → ℕ → ExitResult → Manager → Manager
unfolding update_job ended_job
finish_job id now r m = record m {
  jobs = update_job id (ended_job now r) m.jobs;
  last_activity = now;
}

abbrev pub cancel_process : Process → Process
cancel_process p = record p { canceled = true }

pub cancel_job : ManagedJob → ManagedJob
unfolding is_active
cancel_job j = if is_active j.summary.state then record j { canceled = true } else j

-- What StopJob gives at once, or none when it waits for the job to be done.
stop_found : String → Option ManagedJob → Manager → Result Fault (Option Job) × Manager
unfolding is_active update_job
stop_found id none m = (err not_exist, m)
stop_found id (some j) m =
    if is_active j.summary.state
    then (ok none, record m { jobs = update_job id (λ j. record j { canceled = true }) m.jobs })
    else (ok (some j.summary), m)

-- StopJob
pub stop_job : String → Manager → Result Fault (Option Job) × Manager
unfolding stop_found find_job
stop_job id m = stop_found id (find_job id m.jobs) m

-- Shutdown, up to the waiting.
pub shutdown : Manager → Manager
unfolding cancel_job
shutdown m = if m.shutting_down then m else record m {
  shutting_down = true;
  foreground = map cancel_process m.foreground;
  jobs = map cancel_job m.jobs;
  connections = map cancel_process m.connections;
}

-- How many channels Shutdown waits for.
pub awaited : Manager → ℕ
unfolding active_jobs
awaited m = length m.foreground + active_jobs m.jobs + length m.connections
