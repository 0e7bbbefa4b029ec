-- ===== src/Operator/Reconcile/Examples.antt =====
-- A sandbox that is being created starts; one that failed stays failed.
use aksagent_sandbox.Base.{◌*◌, ◌≡◌, refl, none, some, [], ◌∷◌, ok, ◌⊎◌}
use aksagent_sandbox.ApiTypes.{
  desire_stopped, phase_stopped, DevSandboxSpec, phase_creating, phase_running,
}
use aksagent_sandbox.Lifecycle.Activity.{second}
use aksagent_sandbox.Base.Int.{pos, int32, int64, ◌+ℤ◌, ◌-ℤ◌}
use aksagent_sandbox.Base.Map.{put}
use aksagent_sandbox.Operator.Names.{resource_name}
use aksagent_sandbox.Base.Bytes.{codes}
use aksagent_sandbox.Lifecycle.Validation.{default_dev_sandbox}
use aksagent_sandbox.Lifecycle.Validation.Samples.{spec}
use aksagent_sandbox.Operator.Objects.{DevSandboxStatus, DevSandbox}
use aksagent_sandbox.Operator.Status.{requeue_after}
use aksagent_sandbox.Operator.Phases.{Step, IsCoherent}
use aksagent_sandbox.Operator.Verdict.{write_status}
use aksagent_sandbox.Operator.Resolve.Starts.{KeepsLifecycle}
use aksagent_sandbox.Operator.Reconcile.{decide}
use aksagent_sandbox.Operator.Reconcile.Idle.{IsIdlePass, IsStarted}
use aksagent_sandbox.Operator.Reconcile.Lifecycle.{
  decide-IsIdlePass, decide-Step, decide-IsCoherent, decide-IsStarted,
}
use aksagent_sandbox.Operator.Samples.{status, Log, cluster, sandbox}

abbrev started : DevSandbox
started = record (sandbox phase_creating) {
  spec = default_dev_sandbox spec;
  status = record {
    phase = phase_running;
    upstream_sandbox_name = codes "devsandbox-u1";
    last_activity_time = some (200 * second);
    idle_deadline = some (7400 * second);
    stopped_at = none;
    retention_deadline = none;
    conditions =
        ("Ready", record { status = "True"; reason = "UpstreamReady" })
        ∷ ("ResourcesReady", record { status = "True"; reason = "Reconciled" })
        ∷ ("TransitionValid", record { status = "True"; reason = "Accepted" })
        ∷ ("QuotaReady", record { status = "True"; reason = "Reserved" })
        ∷ [];
  };
}

abbrev log : Log
log = "create upstream" ∷ "create lease" ∷ "create account" ∷ "create claim" ∷ "update quota" ∷ []

starts :
    decide cluster (sandbox phase_creating) []
    ≡ (ok (write_status started (requeue_after (7100 * second))), log)
unfolding decide default_dev_sandbox int32 ◌+ℤ◌ ◌-ℤ◌ int64 resource_name put
starts = refl

cluster_keeps : (st : DevSandboxStatus) → KeepsLifecycle cluster st
unfolding KeepsLifecycle
cluster_keeps st s stored w w' same h = let e : s ≡ stored = cc in rw (← e) same

decide-Step_example : Step phase_creating phase_running
decide-Step_example =
    decide-Step cluster (sandbox phase_creating) (cluster_keeps (status phase_creating)) started
      (requeue_after (7100 * second)) [] log starts

decide-IsStarted_example :
    (phase_creating ≡ phase_running)
    ⊎ IsStarted cluster (record (sandbox phase_creating) { spec = default_dev_sandbox spec }) []
decide-IsStarted_example =
    decide-IsStarted cluster (sandbox phase_creating) (cluster_keeps (status phase_creating))
      started (requeue_after (7100 * second)) [] log starts refl

creating-IsCoherent : IsCoherent (sandbox phase_creating).status
unfolding IsCoherent
creating-IsCoherent = (refl, refl)

decide-IsCoherent_example : IsCoherent started.status
decide-IsCoherent_example =
    decide-IsCoherent cluster (sandbox phase_creating) (cluster_keeps (status phase_creating))
      started (requeue_after (7100 * second)) [] log creating-IsCoherent starts

-- A sandbox that runs, and was last used longer ago than its idle timeout.
abbrev patient : DevSandboxSpec
patient = record (default_dev_sandbox spec) {
  lifecycle = record {
    idle_timeout_seconds = pos 100;
    stopped_retention_seconds = pos 3600;
    failed_retention_seconds = pos 3600;
  };
}

abbrev unused : DevSandbox
unused = record (sandbox phase_running) {
  spec = patient;
  status = record (status phase_running) { last_activity_time = some (50 * second) };
}

abbrev halted : DevSandbox
halted = record (sandbox phase_running) {
  spec = record patient { desired_state = desire_stopped };
  status = record {
    phase = phase_stopped;
    upstream_sandbox_name = codes "devsandbox-u1";
    last_activity_time = some (50 * second);
    idle_deadline = some (150 * second);
    stopped_at = some (200 * second);
    retention_deadline = some (3800 * second);
    conditions =
        ("Ready", record { status = "False"; reason = "Suspended" })
        ∷ ("ResourcesReady", record { status = "True"; reason = "Reconciled" })
        ∷ ("TransitionValid", record { status = "True"; reason = "Accepted" })
        ∷ ("QuotaReady", record { status = "True"; reason = "Reserved" })
        ∷ [];
  };
}

abbrev halting_log : Log
halting_log =
    "create upstream" ∷ "delete lease" ∷ "create account" ∷ "create claim" ∷ "update quota"
    ∷ "update sandbox" ∷ []

halts :
    decide cluster unused []
    ≡ (ok (write_status halted (requeue_after (3600 * second))), halting_log)
unfolding decide default_dev_sandbox int32 ◌+ℤ◌ ◌-ℤ◌ int64 resource_name put
halts = refl

decide-IsIdlePass_example :
    (phase_running ≡ phase_stopped)
    ⊎ ((unused.spec.desired_state ≡ desire_stopped)
        ⊎ IsIdlePass cluster (record unused { spec = default_dev_sandbox patient }) [])
decide-IsIdlePass_example =
    decide-IsIdlePass cluster unused (cluster_keeps unused.status) halted
      (requeue_after (3600 * second)) [] halting_log halts refl
