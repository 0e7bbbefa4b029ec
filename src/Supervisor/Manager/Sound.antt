-- ===== src/Supervisor/Manager/Sound.antt =====
-- internal/supervisor/manager.go: what holds of a manager at every moment.
use aksagent_sandbox.Base.{
  ℕ, ◌≡◌, refl, String, Bool, true, false, Option, none, some, List, [], ◌∷◌, ◌==◌, eqb, Result, ok,
  err, map, Bool-cases, inl, inr, All, if_elim,
}
use aksagent_sandbox.Base.Int.{ℤ}
use aksagent_sandbox.Supervisor.Manager.{
  Job, ManagedJob, Process, Manager, Fault, ExitResult, new_manager, is_active, activity, connect,
  without, has, release, begun, begin_foreground, end_foreground, find_job, without_job, update_job,
  new_job, started, start, exit_result, ended_job, finish_job, cancel_process, cancel_job,
  stop_found, stop_job, shutdown,
}
use aksagent_sandbox.Supervisor.Manager.Drained.{final-inactive, inactive-active}
use aksagent_sandbox.Supervisor.Manager.Steps.{
  Step, acts, connects, releases, begins, ends, starts, finishes, stops, shuts, Steps, here, next,
}

-- A process of a manager that shuts down is canceled.
pub IsStopping : Bool → Process → Type 0
IsStopping closing p = closing ≡ true → p.canceled ≡ true

-- A job has a process and no end, and is canceled when the manager shuts down; or it has an end and
-- an exit code and no process.
pub record IsSoundJob (closing : Bool) (j : ManagedJob) : Type 0 where
  pub is_running :
      is_active j.summary.state ≡ true
      → ((t : ℕ) × (j.tree ≡ some t)) × (j.summary.ended_at ≡ none) × (j.summary.exit_code ≡ none)
  pub is_stopping : is_active j.summary.state ≡ true → closing ≡ true → j.canceled ≡ true
  pub is_over :
      is_active j.summary.state ≡ false
      → (j.tree ≡ none)
        × ((t : ℕ) × (j.summary.ended_at ≡ some t))
        × ((n : ℤ) × (j.summary.exit_code ≡ some n))

pub record IsSound (m : Manager) : Type 0 where
  pub jobs : All (IsSoundJob m.shutting_down) m.jobs
  pub foreground : All (IsStopping m.shutting_down) m.foreground
  pub connections : All (IsStopping m.shutting_down) m.connections

All-without : (P : Process → Type 0) (id : ℕ) (ps : List Process) → All P ps → All P (without id ps)
unfolding without
All-without P id [] h = tt
All-without P id (p ∷ ps) (x, h) = elim (Bool-cases (eqb p.id id)) [
  | inl e ↦ rw e (All-without P id ps h)
  | inr e ↦ rw e (x, All-without P id ps h)
]

All-without_job :
    (P : ManagedJob → Type 0) (id : String) (js : List ManagedJob)
    → All P js
    → All P (without_job id js)
unfolding without_job
All-without_job P id [] h = tt
All-without_job P id (j ∷ js) (x, h) = elim (Bool-cases (j.summary.id == id)) [
  | inl e ↦ rw e (All-without_job P id js h)
  | inr e ↦ rw e (x, All-without_job P id js h)
]

All-update_job :
    (P : ManagedJob → Type 0) (id : String) (f : ManagedJob → ManagedJob)
    → ((j : ManagedJob) → P j → P (f j))
    → (js : List ManagedJob) → All P js
    → All P (update_job id f js)
unfolding update_job
All-update_job P id f k [] h = tt
All-update_job P id f k (j ∷ js) (x, h) = elim (Bool-cases (j.summary.id == id)) [
  | inl e ↦ rw e (k j x, h)
  | inr e ↦ rw e (x, All-update_job P id f k js h)
]

All-map :
    {A B : Type 0} (P : A → Type 0) (Q : B → Type 0) (f : A → B)
    → ((a : A) → P a → Q (f a))
    → (xs : List A) → All P xs
    → All Q (map f xs)
All-map P Q f k [] h = tt
All-map P Q f k (x ∷ xs) (p, h) = (k x p, All-map P Q f k xs h)

new_job-IsSoundJob :
    (closing : Bool) (id : String) (now tree : ℕ)
    → closing ≡ false
    → IsSoundJob closing (new_job id now tree)
unfolding new_job is_active
new_job-IsSoundJob closing id now tree up = record {
  is_running = λ _. ((tree, refl), refl, refl);
  is_stopping = λ _ h. absurd (inactive-active _ up h);
  is_over = λ h. cc;
}

ended_job-IsSoundJob :
    (closing : Bool) (now : ℕ) (r : ExitResult) (j : ManagedJob)
    → IsSoundJob closing (ended_job now r j)
unfolding ended_job
ended_job-IsSoundJob closing now r j = record {
  is_running = λ h. absurd (inactive-active _ (final-inactive r) h);
  is_stopping = λ h _. refl;
  is_over = λ _. (refl, (now, refl), (r.exit_code, refl));
}

canceled-IsSoundJob :
    (closing : Bool) (j : ManagedJob)
    → IsSoundJob closing j
    → IsSoundJob closing (record j { canceled = true })
canceled-IsSoundJob closing j h = record {
  is_running = h.is_running;
  is_stopping = λ _ _. refl;
  is_over = h.is_over;
}

cancel_job-IsSoundJob :
    (closing : Bool) (j : ManagedJob) → IsSoundJob closing j → IsSoundJob true (cancel_job j)
unfolding cancel_job
cancel_job-IsSoundJob closing j h = elim (Bool-cases (is_active j.summary.state)) [
  | inl p ↦
      rw p (record { is_running = h.is_running; is_stopping = λ _ _. refl; is_over = h.is_over })
  | inr p ↦ rw p (record {
    is_running = h.is_running;
    is_stopping = λ a _. absurd (inactive-active _ p a);
    is_over = h.is_over;
  })
]

fresh :
    (closing : Bool) (id : ℕ)
    → closing ≡ false
    → IsStopping closing (record { id = id; canceled = false })
unfolding IsStopping
fresh closing id up h = absurd (inactive-active _ up h)

module _ (m : Manager) (sound : IsSound m) where
  open sound use {jobs, foreground, connections}

  connect-IsSound : (now : ℕ) → IsSound (connect now m).1
  unfolding connect
  connect-IsSound now =
      if_elim (λ (r : Result Fault ℕ × Manager). IsSound r.1) m.shutting_down _ _ (λ _. sound)
        (λ up. record {
          jobs = jobs;
          foreground = foreground;
          connections = (fresh m.shutting_down _ up, All-without _ _ m.connections connections);
        })

  release-IsSound : (id now : ℕ) → IsSound (release id now m)
  unfolding release
  release-IsSound id now =
      if_elim IsSound (has id m.connections) _ _
        (λ _. record {
          jobs = jobs;
          foreground = foreground;
          connections = All-without _ id m.connections connections;
        })
        (λ _. sound)

  begun-IsSound :
      (now : ℕ) (tree : Result Fault ℕ) → m.shutting_down ≡ false → IsSound (begun now tree m).1
  unfolding begun
  begun-IsSound now (err e) up = sound
  begun-IsSound now (ok tree) up = record {
    jobs = jobs;
    foreground = (fresh m.shutting_down tree up, All-without _ tree m.foreground foreground);
    connections = connections;
  }

  started-IsSound :
      (id : String) (now : ℕ) (tree : Result Fault ℕ)
      → m.shutting_down ≡ false
      → IsSound (started id now tree m).1
  unfolding started
  started-IsSound id now (err e) up = record {
    jobs = All-without_job _ id m.jobs jobs;
    foreground = foreground;
    connections = connections;
  }
  started-IsSound id now (ok tree) up = record {
    jobs = (new_job-IsSoundJob m.shutting_down id now tree up, All-without_job _ id m.jobs jobs);
    foreground = foreground;
    connections = connections;
  }

  stop-IsSound : (id : String) (found : Option ManagedJob) → IsSound (stop_found id found m).1
  unfolding stop_found
  stop-IsSound id none = sound
  stop-IsSound id (some j) =
      if_elim (λ (r : Result Fault (Option Job) × Manager). IsSound r.1) (is_active j.summary.state)
        _ _
        (λ _. record {
          jobs = All-update_job _ id _ (canceled-IsSoundJob m.shutting_down) m.jobs jobs;
          foreground = foreground;
          connections = connections;
        })
        (λ _. sound)

  shutdown-IsSound : IsSound (shutdown m)
  unfolding shutdown IsStopping
  shutdown-IsSound =
      if_elim IsSound m.shutting_down _ _ (λ _. sound)
        (λ _. record {
          jobs = All-map _ _ cancel_job (cancel_job-IsSoundJob m.shutting_down) m.jobs jobs;
          foreground = All-map _ _ cancel_process (λ _ _ _. refl) m.foreground foreground;
          connections = All-map _ _ cancel_process (λ _ _ _. refl) m.connections connections;
        })

step-IsSound : (m m' : Manager) → Step m m' → IsSound m → IsSound m'
unfolding activity begin_foreground end_foreground start finish_job stop_job
step-IsSound m m' (acts now _) h = record {
  jobs = h.jobs;
  foreground = h.foreground;
  connections = h.connections;
}
step-IsSound m m' (connects now _) h = connect-IsSound m h now
step-IsSound m m' (releases id now _) h = release-IsSound m h id now
step-IsSound m m' (begins now tree _) h =
    if_elim (λ (r : Result Fault ℕ × Manager). IsSound r.1) m.shutting_down _ _ (λ _. h)
      (λ up. begun-IsSound m h now tree up)
step-IsSound m m' (ends tree now _) h = record {
  jobs = h.jobs;
  foreground = All-without _ tree m.foreground h.foreground;
  connections = h.connections;
}
step-IsSound m m' (starts id now tree _ new) h =
    if_elim (λ (r : Result Fault Job × Manager). IsSound r.1) m.shutting_down _ _ (λ _. h)
      (λ up. started-IsSound m h id now tree up)
step-IsSound m m' (finishes id now windows w seen _ j found active was) h = record {
  jobs =
      All-update_job _ id _
        (λ k _. ended_job-IsSoundJob m.shutting_down now (exit_result windows w seen) k) m.jobs
        h.jobs;
  foreground = h.foreground;
  connections = h.connections;
}
step-IsSound m m' (stops id _) h = stop-IsSound m h id (find_job id m.jobs)
step-IsSound m m' (shuts _) h = shutdown-IsSound m h

-- Whatever happens to a sound manager leaves it sound: every job has a process and no end, or an end and an exit code
-- and no process; and when the manager shuts down, every job, process and connection that is left is canceled.
pub Steps-IsSound : (m m' : Manager) → Steps m m' → IsSound m → IsSound m'
Steps-IsSound m m' (here _) h = h
Steps-IsSound m m' (next _ m1 _ s rest) h = Steps-IsSound m1 m' rest (step-IsSound m m1 s h)

new_manager-IsSound : IsSound new_manager
new_manager-IsSound = record { jobs = tt; foreground = tt; connections = tt }

-- In every state that a new manager reaches, in any order of steps, every job has a process and no end, or an end
-- and an exit code and no process; and once it shuts down, every job, process and connection that is left is canceled.
pub reachable-IsSound : (m : Manager) → Steps new_manager m → IsSound m
reachable-IsSound m s = Steps-IsSound new_manager m s new_manager-IsSound
