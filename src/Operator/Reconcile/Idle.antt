-- ===== src/Operator/Reconcile/Idle.antt =====
-- internal/operator/reconciler.go: why a pass of Reconcile stops a sandbox, and what a start has
-- behind it.
use aksagent_sandbox.Base.{
  Bool-cases, inl, inr, none, some, eqb, arith, ◌≢◌, ℕ, ◌≡◌, ◌⊎◌, refl, true, Option,
}
use aksagent_sandbox.ApiTypes.{
  DesiredState, desire_running, desire_stopped, no_desire, other_desire,
}
use aksagent_sandbox.Lifecycle.Activity.{evaluate_activity}
use aksagent_sandbox.Lifecycle.Validation.{default_desire}
use aksagent_sandbox.Operator.Objects.{DevSandbox, Template}
use aksagent_sandbox.Operator.Cluster.{Cluster, After, call}
use aksagent_sandbox.Operator.Status.{idle_timeout, is_desire_stopped}
use aksagent_sandbox.Operator.Resolve.Starts.{IsGranted}
use aksagent_sandbox.Lifecycle.Activity.Idle.{IsIdle}
use aksagent_sandbox.Operator.Reconcile.{baseline}
use aksagent_sandbox.Operator.Ensure.{get_activity_lease, sandbox_jobs}

-- The activity of a sandbox counts from the last one on record, or from its creation, or, when it has
-- no creation time, from now.
abbrev pub IsSince : ℕ → ℕ → Option ℕ → ℕ → Type 0
IsSince now created (some last) since = since ≡ last
IsSince now created none since =
    ((created ≡ 0) × (since ≡ now)) ⊎ ((created ≢ 0) × (since ≡ created))

pub baseline-IsSince :
    (now created : ℕ) (last : Option ℕ) → IsSince now created last (baseline now created last)
unfolding baseline
baseline-IsSince now created (some last) = refl
baseline-IsSince now created none = elim (Bool-cases (eqb created 0)) [
  | inl p ↦ inl (ground arith, rw p refl)
  | inr p ↦ inr (ground arith, rw p refl)
]

-- The activity lease and the jobs that are read from the world `w` on, after the template, show a
-- sandbox that is idle at the time `now`.
abbrev pub IsIdleAfter : {W : Type 0} → Cluster W → ℕ → DevSandbox → W → Type 0
IsIdleAfter c now s = After (get_activity_lease c s) (λ lease. After (sandbox_jobs c s) (λ jobs _.
    (since : ℕ) × IsSince now s.creation_time s.status.last_activity_time since
    × IsIdle now since (idle_timeout s) lease jobs))

-- A pass that starts at the world `w` reads the template, and then finds the sandbox idle at the time
-- of its start.
abbrev pub IsIdlePass : {W : Type 0} → Cluster W → DevSandbox → W → Type 0
IsIdlePass c s w =
    After (call (c.get_template s.spec.template.name)) (λ _. IsIdleAfter c (c.now w) s) w

-- What a start has behind it, from the reading of the activity on.
abbrev pub IsStartedAfter : {W : Type 0} → Cluster W → ℕ → DevSandbox → Template → W → Type 0
IsStartedAfter c now s t = After (get_activity_lease c s) (λ lease.
    After (sandbox_jobs c s) (λ jobs w.
      (since : ℕ) × IsSince now s.creation_time s.status.last_activity_time since
      × IsGranted c now s t (evaluate_activity now since (idle_timeout s) lease jobs) w))

-- A pass that starts at the world `w` for a sandbox that is to run reads the template and the activity,
-- is granted the reservation, and applies the Sandbox, which is ready.
abbrev pub IsStarted : {W : Type 0} → Cluster W → DevSandbox → W → Type 0
IsStarted c s w =
    (s.spec.desired_state ≡ desire_running)
    × After (call (c.get_template s.spec.template.name)) (IsStartedAfter c (c.now w) s) w

pub desire_of : (d : DesiredState) → is_desire_stopped d ≡ true → d ≡ desire_stopped
desire_of desire_running h = cc
desire_of desire_stopped h = refl
desire_of no_desire h = cc
desire_of (other_desire x) h = cc

pub default_desire-stopped :
    (d : DesiredState) → default_desire d ≡ desire_stopped → d ≡ desire_stopped
unfolding default_desire
default_desire-stopped desire_running h = cc
default_desire-stopped desire_stopped h = refl
default_desire-stopped no_desire h = cc
default_desire-stopped (other_desire x) h = cc
