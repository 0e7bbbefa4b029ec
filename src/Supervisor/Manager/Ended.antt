-- ===== src/Supervisor/Manager/Ended.antt =====
-- internal/supervisor/manager.go: a job that has ended stays as it ended.
use aksagent_sandbox.Base.{
  ℕ, ◌≡◌, refl, sym, ap, ◌∙◌, String, true, false, Option, none, some, List, [], ◌∷◌, ◌==◌, eq_iff,
  Result, ok, err, map, arith, Bool-cases, inl, inr, if_elim, if_true, if_false,
}
use aksagent_sandbox.Supervisor.Manager.{
  Job, ManagedJob, Manager, Fault, ExitResult, is_active, activity, connect, release, has, begun,
  begin_foreground, end_foreground, find_job, without_job, update_job, new_job, started, start,
  exit_result, ended_job, finish_job, cancel_job, stop_found, stop_job, shutdown,
}
use aksagent_sandbox.Supervisor.Manager.Drained.{inactive-active}
use aksagent_sandbox.Supervisor.Manager.Steps.{
  Step, acts, connects, releases, begins, ends, starts, finishes, stops, shuts, Steps, here, next,
}

find_job-without_job :
    (id k : String) (js : List ManagedJob)
    → (k == id) ≡ false
    → find_job id (without_job k js) ≡ find_job id js
unfolding find_job without_job
find_job-without_job id k [] h = refl
find_job-without_job id k (j ∷ js) h = ground (
  arith,
  find_job-without_job id k js h,
  eq_iff j.summary.id k,
  eq_iff j.summary.id id,
  eq_iff k id,
)

find_job-here :
    (id : String) (j : ManagedJob) (js : List ManagedJob)
    → (j.summary.id == id) ≡ true
    → find_job id (j ∷ js) ≡ some j
unfolding find_job
find_job-here id j js h = if_true (j.summary.id == id) (some j) (find_job id js) h

find_job-later :
    (id : String) (j : ManagedJob) (js : List ManagedJob)
    → (j.summary.id == id) ≡ false
    → find_job id (j ∷ js) ≡ find_job id js
unfolding find_job
find_job-later id j js h = if_false (j.summary.id == id) (some j) (find_job id js) h

module _ (f : ManagedJob → ManagedJob)
    (same : (j : ManagedJob) → (f j).summary.id ≡ j.summary.id) where
  find_job-update_other :
      (id k : String) (js : List ManagedJob)
      → (k == id) ≡ false
      → find_job id (update_job k f js) ≡ find_job id js
  unfolding find_job update_job
  find_job-update_other id k [] h = refl
  find_job-update_other id k (j ∷ js) h = ground (
    arith,
    find_job-update_other id k js h,
    same j,
    eq_iff j.summary.id k,
    eq_iff j.summary.id id,
    eq_iff k id,
  )

  find_job-update_job :
      (id : String) (js : List ManagedJob) (j : ManagedJob)
      → find_job id js ≡ some j
      → find_job id (update_job id f js) ≡ some (f j)
  unfolding find_job update_job
  find_job-update_job id [] j h = cc
  find_job-update_job id (i ∷ js) j h = elim (Bool-cases (i.summary.id == id)) [
    | inl p ↦
        let found : some i ≡ some j = rw p at h in
        let e : i ≡ j = cc in
        rw p (find_job-here id (f i) js (ap (λ x. x == id) (same i) ∙ p) ∙ ap (λ x. some (f x)) e)
    | inr p ↦
        let rest : find_job id js ≡ some j = rw p at h in
        rw p (find_job-later id i _ p ∙ find_job-update_job id js j rest)
  ]

cancel_job-summary : (j : ManagedJob) → (cancel_job j).summary ≡ j.summary
unfolding cancel_job
cancel_job-summary j =
    if_elim (λ (k : ManagedJob). k.summary ≡ j.summary) (is_active j.summary.state) _ _ (λ _. refl)
      (λ _. refl)

find_job-cancel_job :
    (id : String) (js : List ManagedJob) (j : ManagedJob)
    → find_job id js ≡ some j
    → find_job id (map cancel_job js) ≡ some (cancel_job j)
unfolding find_job
find_job-cancel_job id [] j h = cc
find_job-cancel_job id (i ∷ js) j h = elim (Bool-cases (i.summary.id == id)) [
  | inl p ↦
      let found : some i ≡ some j = rw p at h in
      let e : i ≡ j = cc in
      find_job-here id (cancel_job i) _ (ap (λ x. x.id == id) (cancel_job-summary i) ∙ p)
      ∙ ap (λ x. some (cancel_job x)) e
  | inr p ↦
      let rest : find_job id js ≡ some j = rw p at h in
      find_job-later id (cancel_job i) _ (ap (λ x. x.id == id) (cancel_job-summary i) ∙ p)
      ∙ find_job-cancel_job id js j rest
]

-- The job is listed with this summary.
abbrev pub IsListed : String → Job → Manager → Type 0
IsListed id job m = (j : ManagedJob) × (find_job id m.jobs ≡ some j) × (j.summary ≡ job)

module _ (id : String) (job : Job) (over : is_active job.state ≡ false) (m : Manager)
    (listed : IsListed id job m) where
  begun-IsListed : (now : ℕ) (tree : Result Fault ℕ) → IsListed id job (begun now tree m).1
  unfolding begun
  begun-IsListed now (err e) = listed
  begun-IsListed now (ok tree) = listed

  other : (k : String) → find_job k m.jobs ≡ none → (k == id) ≡ false
  other k h = elim (Bool-cases (k == id)) [
    | inl p ↦
        let e : k ≡ id = (eq_iff k id).0 p in
        let found : none ≡ some listed.0 = sym h ∙ ap (λ k. find_job k m.jobs) e ∙ listed.1 in cc
    | inr p ↦ p
  ]

  started-IsListed :
      (k : String) (now : ℕ) (tree : Result Fault ℕ)
      → find_job k m.jobs ≡ none
      → IsListed id job (started k now tree m).1
  unfolding started find_job new_job
  started-IsListed k now (err e) h =
      (listed.0, find_job-without_job id k m.jobs (other k h) ∙ listed.1, listed.2)
  started-IsListed k now (ok tree) h =
      (listed.0, rw (other k h) (find_job-without_job id k m.jobs (other k h) ∙ listed.1), listed.2)

  finished-IsListed :
      (k : String) (now : ℕ) (r : ExitResult) (j : ManagedJob)
      → find_job k m.jobs ≡ some j
      → is_active j.summary.state ≡ true
      → IsListed id job (finish_job k now r m)
  unfolding finish_job ended_job
  finished-IsListed k now r j h active = elim (Bool-cases (k == id)) [
    | inl p ↦
        let e : k ≡ id = (eq_iff k id).0 p in
        let found : some j ≡ some listed.0 = sym h ∙ ap (λ k. find_job k m.jobs) e ∙ listed.1 in
        let own : j ≡ listed.0 = cc in
        absurd (
          inactive-active _ over (
            ap (λ s. is_active s.state) (sym listed.2)
            ∙ ap (λ j. is_active j.summary.state) (sym own)
            ∙ active))
    | inr p ↦ (
      listed.0,
      find_job-update_other (ended_job now r) (λ _. refl) id k m.jobs p ∙ listed.1,
      listed.2,
    )
  ]

  canceled-IsListed :
      (k : String)
      → IsListed id job
          (record m { jobs = update_job k (λ j. record j { canceled = true }) m.jobs })
  canceled-IsListed k = elim (Bool-cases (k == id)) [
    | inl p ↦ (
      record listed.0 { canceled = true },
      rw ((eq_iff k id).0 p) (
          find_job-update_job (λ j. record j { canceled = true }) (λ _. refl) id m.jobs listed.0
            listed.1),
      listed.2,
    )
    | inr p ↦ (
      listed.0,
      find_job-update_other (λ j. record j { canceled = true }) (λ _. refl) id k m.jobs p
          ∙ listed.1,
      listed.2,
    )
  ]

  stopped-IsListed :
      (k : String) (found : Option ManagedJob) → IsListed id job (stop_found k found m).1
  unfolding stop_found
  stopped-IsListed k none = listed
  stopped-IsListed k (some j) =
      if_elim (λ (r : Result Fault (Option Job) × Manager). IsListed id job r.1)
        (is_active j.summary.state) _ _ (λ _. canceled-IsListed k) (λ _. listed)

  closed-IsListed : IsListed id job (shutdown m)
  unfolding shutdown
  closed-IsListed =
      if_elim (IsListed id job) m.shutting_down _ _ (λ _. listed)
        (λ _. (
          cancel_job listed.0,
          find_job-cancel_job id m.jobs listed.0 listed.1,
          cancel_job-summary listed.0 ∙ listed.2,
        ))

module _ (id : String) (job : Job) (over : is_active job.state ≡ false) where
  step-IsListed : (m m' : Manager) → Step m m' → IsListed id job m → IsListed id job m'
  unfolding activity connect release begin_foreground end_foreground start stop_job
  step-IsListed m m' (acts now _) h = h
  step-IsListed m m' (connects now _) h =
      if_elim (λ (r : Result Fault ℕ × Manager). IsListed id job r.1) m.shutting_down _ _ (λ _. h)
        (λ _. h)
  step-IsListed m m' (releases k now _) h =
      if_elim (IsListed id job) (has k m.connections) _ _ (λ _. h) (λ _. h)
  step-IsListed m m' (begins now tree _) h =
      if_elim (λ (r : Result Fault ℕ × Manager). IsListed id job r.1) m.shutting_down _ _ (λ _. h)
        (λ _. begun-IsListed id job over m h now tree)
  step-IsListed m m' (ends tree now _) h = h
  step-IsListed m m' (starts k now tree _ new) h =
      if_elim (λ (r : Result Fault Job × Manager). IsListed id job r.1) m.shutting_down _ _ (λ _. h)
        (λ _. started-IsListed id job over m h k now tree new)
  step-IsListed m m' (finishes k now windows w seen _ j found active was) h =
      finished-IsListed id job over m h k now (exit_result windows w seen) j found active
  step-IsListed m m' (stops k _) h = stopped-IsListed id job over m h k (find_job k m.jobs)
  step-IsListed m m' (shuts _) h = closed-IsListed id job over m h

  -- A job that has ended keeps its summary, with its final state, end and exit code, whatever happens
  -- next, as long as new jobs get new identifiers.
  pub Steps-IsListed : (m m' : Manager) → Steps m m' → IsListed id job m → IsListed id job m'
  Steps-IsListed m m' (here _) h = h
  Steps-IsListed m m' (next _ m1 _ s rest) h = Steps-IsListed m1 m' rest (step-IsListed m m1 s h)
