-- ===== src/Supervisor/Manager/Steps.antt =====
-- internal/supervisor/manager.go: what can happen to a manager, in any order that its mutex allows.
use aksagent_sandbox.Base.{ℕ, ◌≡◌, String, Bool, true, none, some, Result}
use aksagent_sandbox.Supervisor.Manager.{
  ManagedJob, Manager, Fault, Waited, is_active, activity, connect, release, begin_foreground,
  end_foreground, find_job, start, exit_result, finish_job, stop_job, shutdown,
}

-- A new job has an identifier that no job has. A job is finished once, by the routine that its start
-- began, which has looked at its context at some moment before.
pub data Step : Manager → Manager → Type 0 where
  acts : (now : ℕ) (m : Manager) → Step m (activity now m)
  connects : (now : ℕ) (m : Manager) → Step m (connect now m).1
  releases : (id now : ℕ) (m : Manager) → Step m (release id now m)
  begins : (now : ℕ) (tree : Result Fault ℕ) (m : Manager) → Step m (begin_foreground now tree m).1
  ends : (tree now : ℕ) (m : Manager) → Step m (end_foreground tree now m)
  starts :
      (id : String) (now : ℕ) (tree : Result Fault ℕ) (m : Manager)
      → find_job id m.jobs ≡ none
      → Step m (start id now tree m).1
  finishes :
      (id : String) (now : ℕ) (windows : Bool) (w : Waited) (seen : Bool) (m : Manager)
      (j : ManagedJob)
      → find_job id m.jobs ≡ some j
      → is_active j.summary.state ≡ true
      → (seen ≡ true → j.canceled ≡ true)
      → Step m (finish_job id now (exit_result windows w seen) m)
  stops : (id : String) (m : Manager) → Step m (stop_job id m).1
  shuts : (m : Manager) → Step m (shutdown m)

pub data Steps : Manager → Manager → Type 0 where
  here : (m : Manager) → Steps m m
  next : (m m1 m2 : Manager) → Step m m1 → Steps m1 m2 → Steps m m2
