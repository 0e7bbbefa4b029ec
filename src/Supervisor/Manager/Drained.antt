-- ===== src/Supervisor/Manager/Drained.antt =====
-- internal/supervisor/manager.go: a manager that shuts down only winds up.
use aksagent_sandbox.Base.{
  ℕ, ◌≤◌, ◌≡◌, refl, String, Bool, true, false, Option, none, some, List, [], ◌∷◌, ◌==◌, length,
  arith, Bool-cases, inl, inr,
}
use aksagent_sandbox.Supervisor.Manager.{
  ManagedJob, Process, Manager, ExitResult, is_active, active_jobs, activity, connect, without, has,
  release, begin_foreground, end_foreground, find_job, update_job, start, exit_result, final_state,
  ended_job, finish_job, stop_found, stop_job, shutdown, awaited,
}
use aksagent_sandbox.Supervisor.Manager.Steps.{
  Step, acts, connects, releases, begins, ends, starts, finishes, stops, shuts, Steps, here, next,
}

length-without : (id : ℕ) (ps : List Process) → length (without id ps) ≤ length ps
unfolding without
length-without id [] = omega arith
length-without id (p ∷ ps) = ground (arith, length-without id ps)

active_update :
    (id : String) (f : ManagedJob → ManagedJob) (js : List ManagedJob)
    → ((j : ManagedJob) → is_active (f j).summary.state ≡ true → is_active j.summary.state ≡ true)
    → active_jobs (update_job id f js) ≤ active_jobs js
unfolding update_job active_jobs
active_update id f [] h = omega arith
active_update id f (j ∷ js) h = elim (Bool-cases (j.summary.id == id)) [
  | inl p ↦ rw p (ground (arith, h j))
  | inr p ↦ rw p (ground (arith, active_update id f js h))
]

pub final-inactive : (r : ExitResult) → is_active (final_state r) ≡ false
unfolding final_state is_active
final-inactive r = ground arith

pub inactive-active : (b : Bool) → b ≡ false → b ≡ true → ⊥
inactive-active b p q = cc

finished-active :
    (now : ℕ) (r : ExitResult) (j : ManagedJob)
    → is_active (ended_job now r j).summary.state ≡ true
    → is_active j.summary.state ≡ true
unfolding ended_job
finished-active now r j h = absurd (inactive-active _ (final-inactive r) h)

stopped-drains :
    (id : String) (found : Option ManagedJob) (m : Manager)
    → m.shutting_down ≡ true
    → ((stop_found id found m).1.shutting_down ≡ true)
      × (awaited (stop_found id found m).1 ≤ awaited m)
unfolding stop_found awaited
stopped-drains id none m h = (h, omega arith)
stopped-drains id (some j) m h = elim (Bool-cases (is_active j.summary.state)) [
  | inl p ↦
      rw p
        (h, ground (arith, active_update id (λ j. record j { canceled = true }) m.jobs (λ j h. h)))
  | inr p ↦ rw p (h, omega arith)
]

step-drains :
    (m m' : Manager)
    → Step m m'
    → m.shutting_down ≡ true
    → (m'.shutting_down ≡ true) × (awaited m' ≤ awaited m)
unfolding activity connect release begin_foreground end_foreground start finish_job stop_job
    shutdown awaited
step-drains m m' (acts now _) h = (h, omega arith)
step-drains m m' (connects now _) h = rw h (refl, omega arith)
step-drains m m' (releases id now _) h = elim (Bool-cases (has id m.connections)) [
  | inl p ↦ rw p (h, omega (arith, length-without id m.connections))
  | inr p ↦ rw p (h, omega arith)
]
step-drains m m' (begins now tree _) h = rw h (refl, omega arith)
step-drains m m' (ends tree now _) h = (h, omega (arith, length-without tree m.foreground))
step-drains m m' (starts id now tree _ new) h = rw h (refl, omega arith)
step-drains m m' (finishes id now windows w seen _ j found active was) h = (
  h,
  omega (
    arith,
    active_update id (ended_job now (exit_result windows w seen)) m.jobs
        (finished-active now (exit_result windows w seen)),
  ),
)
step-drains m m' (stops id _) h = stopped-drains id (find_job id m.jobs) m h
step-drains m m' (shuts _) h = rw h (refl, omega arith)

-- From the start of the shutdown on, the manager stays in it, and no step starts anything: the
-- processes, jobs and connections that are waited for get no more.
pub drains :
    (m m' : Manager)
    → Steps m m'
    → m.shutting_down ≡ true
    → (m'.shutting_down ≡ true) × (awaited m' ≤ awaited m)
drains m m' (here _) h = (h, omega arith)
drains m m' (next _ m1 _ s rest) h =
    let (h1, le1) = step-drains m m1 s h in
    let (h2, le2) = drains m1 m' rest h1 in (h2, omega arith)
