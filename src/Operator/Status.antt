-- ===== src/Operator/Status.antt =====
-- internal/operator/reconciler.go: what is computed for the status of a sandbox.
use aksagent_sandbox.Base.{
  ℕ, ◌+◌, ◌-◌, ◌*◌, String, Bool, true, false, not, ◌&&◌, ◌||◌, Option, none, some, List, [], ◌∷◌,
  ◌++◌, ◌==◌, leb, eqb, if◌then◌else◌, map,
}
use aksagent_sandbox.Base.Int.{ℤ, pos, pos_part, leb_ℤ}
use aksagent_sandbox.Base.Bytes.{codes}
use aksagent_sandbox.Base.Map.{put, find}
use aksagent_sandbox.Base.Text.{contains}
use aksagent_sandbox.ApiTypes.{
  Phase, phase_running, phase_stopped, phase_failed, DesiredState, desire_running, desire_stopped,
  DevSandboxSpec,
}
use aksagent_sandbox.Lifecycle.Activity.{second}
use aksagent_sandbox.Operator.Names.{lower}
use aksagent_sandbox.Operator.Objects.{Condition, DevSandboxStatus, DevSandbox, UpstreamCondition}

-- ctrl.Result
pub data Requeue : Type 0 where
  done requeue : Requeue
  requeue_after : ℕ → Requeue

abbrev pub default_requeue : Requeue
default_requeue = requeue_after (30 * second)

abbrev pub is_phase_running : Phase → Bool
is_phase_running phase_running = true
is_phase_running _ = false

abbrev pub is_phase_stopped : Phase → Bool
is_phase_stopped phase_stopped = true
is_phase_stopped _ = false

abbrev pub is_phase_failed : Phase → Bool
is_phase_failed phase_failed = true
is_phase_failed _ = false

abbrev pub is_desire_running : DesiredState → Bool
is_desire_running desire_running = true
is_desire_running _ = false

abbrev pub is_desire_stopped : DesiredState → Bool
is_desire_stopped desire_stopped = true
is_desire_stopped _ = false

-- expired
unfoldable pub expired : Option ℕ → ℕ → Bool
expired none now = false
expired (some deadline) now = leb deadline now

-- requeueAt
unfoldable pub requeue_at : ℕ → Option ℕ → Requeue
requeue_at now none = default_requeue
requeue_at now (some deadline) =
    if leb deadline now then requeue_after second else requeue_after (deadline - now)

-- setCondition
abbrev pub with_condition : String → String → String → DevSandboxStatus → DevSandboxStatus
with_condition kind status reason st = record st {
  conditions =
      put kind (record { status = status; reason = if reason == "" then "Unknown" else reason })
        st.conditions;
}

abbrev pub with_status : (DevSandboxStatus → DevSandboxStatus) → DevSandbox → DevSandbox
with_status f s = record s { status = f s.status }

-- conditionReason
pub reason_of : Option Condition → String
reason_of none = ""
reason_of (some c) = c.reason

pub condition_reason : List (String × Condition) → String → String
unfolding reason_of find
condition_reason conditions kind = reason_of (find kind conditions)

-- time.Duration(spec.Lifecycle.IdleTimeoutSeconds) * time.Second, of a validated specification.
abbrev pub idle_timeout : DevSandbox → ℕ
idle_timeout s = pos_part s.spec.lifecycle.idle_timeout_seconds * second

projects : ℕ → ℕ → ℕ → Option ℕ → Option ℕ → Bool
projects timeout activity deadline (some last) (some idle) =
    leb (last + 60 * second) activity
    || not (eqb idle (last + timeout))
    || not (eqb deadline (activity + timeout))
projects timeout activity deadline _ _ = true

-- shouldProjectActivity
unfoldable pub should_project_activity : DevSandbox → ℕ → ℕ → Bool
unfolding projects
should_project_activity s activity deadline =
    projects (idle_timeout s) activity deadline s.status.last_activity_time s.status.idle_deadline

-- projectUpstreamConditions
unfoldable pub project_conditions :
    (String → String) → List UpstreamCondition → DevSandboxStatus → DevSandboxStatus
project_conditions upstream_type [] st = st
project_conditions upstream_type (u ∷ us) st =
    project_conditions upstream_type us
      (with_condition (upstream_type u.condition_type) u.status u.reason st)

-- upstreamReady
unfoldable pub upstream_ready : List UpstreamCondition → Bool
upstream_ready [] = false
upstream_ready (u ∷ us) = (u.condition_type == "Ready" && u.status == "True") || upstream_ready us

is_failure : UpstreamCondition → Bool
unfolding contains lower
is_failure u =
    let text = map lower (codes u.reason ++ 32 ∷ codes u.message) in
    u.condition_type == "Ready"
    && u.status == "False"
    && (contains text (codes "fail")
        || contains text (codes "error")
        || contains text (codes "invalid"))

-- upstreamFailure, with its reason.
unfoldable pub upstream_failure : List UpstreamCondition → Option String
unfolding is_failure
upstream_failure [] = none
upstream_failure (u ∷ us) =
    let rest = upstream_failure us in
    if is_failure u then some (if u.reason == "" then "UpstreamFailed" else u.reason) else rest

unfoldable pub or_deadline : Option ℕ → ℕ → Option ℕ
or_deadline (some d) fresh = some d
or_deadline none fresh = some fresh

retention : ℤ → ℕ
retention seconds = if leb_ℤ seconds (pos 0) then 86400 * second else pos_part seconds * second

-- The status that `fail` sets.
unfoldable pub failed_status : String → ℕ → DevSandboxSpec → DevSandboxStatus → DevSandboxStatus
unfolding or_deadline retention
failed_status reason now spec st = with_condition "ResourcesReady" "False" reason (
    with_condition "Ready" "False" reason (record st {
      phase = phase_failed;
      idle_deadline = none;
      retention_deadline =
          or_deadline st.retention_deadline
            (now + retention spec.lifecycle.failed_retention_seconds);
    }))

unfoldable pub stopped_instant : Option ℕ → ℕ → ℕ
stopped_instant (some t) now = t
stopped_instant none now = now

-- The times of a stopped sandbox: `StoppedAt` and `RetentionDeadline`, each set where it is nil.
unfoldable pub stopped_times : ℕ → DevSandboxSpec → DevSandboxStatus → DevSandboxStatus
unfolding or_deadline stopped_instant
stopped_times now spec st = record st {
  stopped_at = some (stopped_instant st.stopped_at now);
  retention_deadline = or_deadline st.retention_deadline (
      stopped_instant st.stopped_at now
      + pos_part spec.lifecycle.stopped_retention_seconds * second);
}

-- The times of a sandbox that runs.
abbrev pub running_times : DevSandboxStatus → DevSandboxStatus
running_times st = record st { stopped_at = none; retention_deadline = none }
