-- ===== src/Operator/Resolve/Changes.antt =====
-- internal/operator/reconciler.go: how the status that a pass writes follows from the one before.
use aksagent_sandbox.Base.{
  ℕ, ◌≡◌, refl, ◌∙◌, ◌⊎◌, inl, inr, String, true, false, Option, none, some, List, [], ◌∷◌,
  Bool-cases,
}
use aksagent_sandbox.ApiTypes.{phase_stopped, phase_running, phase_failed, DesiredState}
use aksagent_sandbox.Lifecycle.Activity.{ActivityResult}
use aksagent_sandbox.Operator.Objects.{DevSandboxStatus, DevSandbox, Upstream, UpstreamCondition}
use aksagent_sandbox.Operator.Cluster.{
  Cluster, Yields, pure-Yields, >>=-Yields, ◌>>◌, pure, attempt,
}
use aksagent_sandbox.Operator.Status.{
  is_phase_running, is_desire_stopped, with_condition, with_status, or_deadline, stopped_times,
  should_project_activity, project_conditions, failed_status, upstream_ready, requeue_at,
}
use aksagent_sandbox.Operator.Names.{workspace_claim_name}
use aksagent_sandbox.Operator.Phases.{
  Step, create, start, stop, fall, IsPresent, IsTimed, IsCoherent,
}
use aksagent_sandbox.Operator.Verdict.{
  Verdict, finished, write_status, retire, fail, running, concluded, with_activity, projected,
  keep_storage,
}
use aksagent_sandbox.Operator.Resolve.{timed}

-- From status `st` to status `st'`; `Started` is what a start has behind it.
pub record Change (Started Stopped : Type 0) (st st' : DevSandboxStatus) : Type 0 where
  pub step : Step st.phase st'.phase
  pub coherent : IsCoherent st → IsCoherent st'
  pub started : st'.phase ≡ phase_running → (st.phase ≡ phase_running) ⊎ Started
  pub stopped : st'.phase ≡ phase_stopped → (st.phase ≡ phase_stopped) ⊎ Stopped

unfoldable pub Allowed : Type 0 → Type 0 → DevSandboxStatus → Verdict → Type 0
Allowed Started Stopped st (finished r) = Unit
Allowed Started Stopped st (write_status s r) = Change Started Stopped st s.status
Allowed Started Stopped st (retire s) = Change Started Stopped st s.status

or_deadline-IsPresent : (o : Option ℕ) (t : ℕ) → IsPresent (or_deadline o t)
unfolding or_deadline
or_deadline-IsPresent none t = (t, refl)
or_deadline-IsPresent (some d) t = (d, refl)

-- Conditions are apart from the phase and the times.
pub record IsSame (st st' : DevSandboxStatus) : Type 0 where
  pub phase : st'.phase ≡ st.phase
  pub stopped_at : st'.stopped_at ≡ st.stopped_at
  pub retention : st'.retention_deadline ≡ st.retention_deadline

project_conditions-IsSame :
    (f : String → String) (us : List UpstreamCondition) (st : DevSandboxStatus)
    → IsSame st (project_conditions f us st)
unfolding project_conditions
project_conditions-IsSame f [] st = record { phase = refl; stopped_at = refl; retention = refl }
project_conditions-IsSame f (u ∷ us) st =
    let next = with_condition (f u.condition_type) u.status u.reason st in
    let same = project_conditions-IsSame f us next in
    record { phase = same.phase; stopped_at = same.stopped_at; retention = same.retention }

with_activity-IsSame :
    (s : DevSandbox) (a : ActivityResult) (st : DevSandboxStatus) → IsSame st (with_activity s a st)
unfolding with_activity
with_activity-IsSame s a st =
    elim (Bool-cases (should_project_activity s a.last_activity a.idle_deadline)) [
      | inl p ↦ rw p (record { phase = refl; stopped_at = refl; retention = refl })
      | inr p ↦ rw p (record { phase = refl; stopped_at = refl; retention = refl })
    ]

module _ {W : Type 0} (c : Cluster W) where
  pub projected-IsSame :
      (s : DevSandbox) (a : ActivityResult) (u : Upstream)
      → IsSame s.status (projected c s a u).status
  unfolding projected
  projected-IsSame s a u =
      let named = record s.status { upstream_sandbox_name = u.name } in
      let x = with_activity-IsSame s a named in
      let y =
        project_conditions-IsSame c.upstream_type u.conditions
          (with_condition "ResourcesReady" "True" "Reconciled" (with_activity s a named)) in
      record {
        phase = y.phase ∙ x.phase;
        stopped_at = y.stopped_at ∙ x.stopped_at;
        retention = y.retention ∙ x.retention;
      }

-- The times that a stopped sandbox, or one in use, has.
pub record Fits (e : DesiredState) (st : DevSandboxStatus) : Type 0 where
  pub when_stopped :
      is_desire_stopped e ≡ true → IsPresent st.stopped_at × IsPresent st.retention_deadline
  pub in_use : is_desire_stopped e ≡ false → (st.stopped_at ≡ none) × (st.retention_deadline ≡ none)

pub timed-Fits : (now : ℕ) (e : DesiredState) (s : DevSandbox) → Fits e (timed now e s).status
unfolding timed stopped_times
timed-Fits now e s = record {
  when_stopped = λ h. rw h ((_, refl), or_deadline-IsPresent _ _);
  in_use = λ h. rw h (refl, refl);
}

timed-phase :
    (now : ℕ) (e : DesiredState) (s : DevSandbox) → (timed now e s).status.phase ≡ s.status.phase
unfolding timed stopped_times
timed-phase now e s = elim (Bool-cases (is_desire_stopped e)) [ inl p ↦ rw p | inr p ↦ rw p ]

pub same-Fits :
    (e : DesiredState) (st st' : DevSandboxStatus) → Fits e st → IsSame st st' → Fits e st'
same-Fits e st st' fits same = record {
  when_stopped = λ h. rw (same.stopped_at, same.retention) (fits.when_stopped h);
  in_use = λ h. rw (same.stopped_at, same.retention) (fits.in_use h);
}

running-Fits :
    (now : ℕ) (e : DesiredState) (s : DevSandbox) → Fits e s.status → Fits e (running now s).status
unfolding running
running-Fits now e s fits = elim (Bool-cases (is_phase_running s.status.phase)) [
  | inl p ↦ rw p (record { when_stopped = fits.when_stopped; in_use = fits.in_use })
  | inr p ↦ rw p (record { when_stopped = fits.when_stopped; in_use = fits.in_use })
]

module _ {W : Type 0} (c : Cluster W) (Started Stopped : Type 0) (st : DevSandboxStatus)
    (alive : ¬ (st.phase ≡ phase_failed)) where
  pub fail-Allowed :
      (reason : String) (now : ℕ) (s : DevSandbox)
      → Yields (Allowed Started Stopped st) (fail c reason now s)
  unfolding fail Allowed failed_status IsCoherent IsTimed
  fail-Allowed reason now s =
      let s' = with_status (failed_status reason now s.spec) s in
      let v = write_status s' (requeue_at now s'.status.retention_deadline) in
      let P = Allowed Started Stopped st in
      let allowed : P v = record {
        step = fall st.phase alive;
        coherent = λ _. or_deadline-IsPresent _ _;
        started = λ e. cc;
        stopped = λ e. cc;
      } in
      >>=-Yields P (attempt (c.get_claim s.namespace (workspace_claim_name s)))
        (λ r. keep_storage c s' r >> pure v)
        (λ r w w1 _.
          >>=-Yields P (keep_storage c s' r) (λ _. pure v) (λ x w w1 _. pure-Yields W P v allowed))

  -- The reconciler chose `e`.
  module _ (e : DesiredState) (stops : is_desire_stopped e ≡ true → Stopped) where
    pub concluded-Allowed :
        (now : ℕ) (s : DevSandbox) (a : ActivityResult) (us : List UpstreamCondition)
        → Fits e s.status
        → (is_desire_stopped e ≡ false → upstream_ready us ≡ true → Started)
        → Allowed Started Stopped st (concluded now s a e us)
    unfolding concluded Allowed IsCoherent IsTimed running
    concluded-Allowed now s a us fits quota = elim (Bool-cases (is_desire_stopped e)) [
      | inl halted ↦ rw halted (record {
        step = stop st.phase alive;
        coherent = λ _. fits.when_stopped halted;
        started = λ e. cc;
        stopped = λ _. inr (stops halted);
      })
      | inr other ↦ elim (Bool-cases (upstream_ready us)) [
        | inl ready ↦
            rw (other, ready)
              (record {
                step = start st.phase alive;
                coherent = λ _. (running-Fits now e s fits).in_use other;
                started = λ _. inr (quota other ready);
                stopped = λ e. cc;
              })
        | inr pending ↦
            rw (other, pending)
              (record {
                step = create st.phase alive;
                coherent = λ _. fits.in_use other;
                started = λ e. cc;
                stopped = λ e. cc;
              })
      ]
    ]
