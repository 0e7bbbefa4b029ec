-- ===== src/Operator/Verdict.antt =====
-- internal/operator/reconciler.go: what a pass of Reconcile ends with.
use aksagent_sandbox.Base.{
  ℕ, ◌+◌, ◌-◌, String, Option, none, some, List, ltb, if◌then◌else◌, Result, ok, err,
}
use aksagent_sandbox.Base.Int.{ℤ, pos}
use aksagent_sandbox.ApiTypes.{
  Phase, phase_pending, phase_creating, phase_running, phase_stopped, phase_failed, no_phase,
  phase_deleting, DesiredState,
}
use aksagent_sandbox.Lifecycle.Activity.{ActivityResult, second}
use aksagent_sandbox.Lifecycle.Quota.{QuotaError, ReservationRequest}
use aksagent_sandbox.Lifecycle.Quota.Retry.{reconcile_reservation}
use aksagent_sandbox.Operator.Objects.{
  DevSandboxStatus, DevSandbox, Claim, Upstream, UpstreamCondition,
}
use aksagent_sandbox.Operator.Names.{
  workspace_claim_name, quota_name_for_user, reservation_id, gib_of,
}
use aksagent_sandbox.Operator.Status.{
  Requeue, requeue_after, is_phase_running, is_desire_stopped, requeue_at, with_condition,
  with_status, idle_timeout, should_project_activity, project_conditions, upstream_ready,
  failed_status,
}
use aksagent_sandbox.Operator.Cluster.{
  ApiError, Call, ◌>>=◌, ◌>>◌, pure, attempt, gets, Cluster, quota_manager,
}

-- `finished` returns; `write_status` is `return r.updateStatus(ctx, &sandbox, result)`; `retire` is
-- updateStatus and then Delete.
pub data Verdict : Type 0 where
  finished : Requeue → Verdict
  write_status : DevSandbox → Requeue → Verdict
  retire : DevSandbox → Verdict

abbrev pub desired : DesiredState → DevSandbox → DevSandbox
desired d s = record s { spec = record s.spec { desired_state = d } }

abbrev pub accepted_conditions : DevSandboxStatus → DevSandboxStatus
accepted_conditions st =
    with_condition "TransitionValid" "True" "Accepted"
      (with_condition "QuotaReady" "True" "Reserved" st)

abbrev pub rejected_conditions : DevSandboxStatus → DevSandboxStatus
rejected_conditions st =
    with_condition "TransitionValid" "False" "QuotaExceeded"
      (with_condition "QuotaReady" "False" "QuotaExceeded" st)

unfoldable pub pended : Phase → Phase
pended no_phase = phase_pending
pended phase_pending = phase_pending
pended phase_creating = phase_creating
pended phase_running = phase_running
pended phase_stopped = phase_stopped
pended phase_failed = phase_failed
pended phase_deleting = phase_deleting

-- The time until the next check.
pub next_requeue : ℕ → ℕ → Requeue
next_requeue now next = if ltb next now then requeue_after second else requeue_after (next - now)

unfoldable pub running : ℕ → DevSandbox → DevSandbox
running now s =
    let timed = if is_phase_running s.status.phase then s.status else record s.status {
      last_activity_time = some now;
      idle_deadline = some (now + idle_timeout s);
    } in
    record s {
      status =
          with_condition "Ready" "True" "UpstreamReady" (record timed { phase = phase_running });
    }

-- The end of Reconcile.
unfoldable pub concluded :
    ℕ → DevSandbox → ActivityResult → DesiredState → List UpstreamCondition → Verdict
unfolding upstream_ready requeue_at running next_requeue
concluded now s a e conditions =
    if is_desire_stopped e
    then write_status
        (with_status
          (λ st. with_condition "Ready" "False" "Suspended" (record st { phase = phase_stopped }))
          s)
        (requeue_at now s.status.retention_deadline)
    else if upstream_ready conditions
    then write_status (running now s) (next_requeue now a.next_check)
    else write_status
        (with_status
          (λ st.
            with_condition "Ready" "False" "UpstreamPending" (record st { phase = phase_creating }))
          s)
        (next_requeue now a.next_check)

unfoldable pub with_activity : DevSandbox → ActivityResult → DevSandboxStatus → DevSandboxStatus
unfolding should_project_activity
with_activity s a st =
    if should_project_activity s a.last_activity a.idle_deadline
    then record st {
      last_activity_time = some a.last_activity;
      idle_deadline = some a.idle_deadline;
    }
    else st

module _ {W : Type 0} (c : Cluster W) where
  unfoldable pub reservation : DevSandbox → ℤ → ℤ → ReservationRequest
  unfolding reservation_id
  reservation s active gib = record {
    id = reservation_id c.joined_name s;
    sandbox_name = s.name;
    active = active;
    retained = pos 1;
    storage_gib = gib;
  }

  answer : (W → Option QuotaError × W) → Call W (Option QuotaError)
  answer m w = let (r, w') = m w in (ok r, w')

  -- ReconcileReservation of the owner's quota.
  unfoldable pub reserved : DevSandbox → ReservationRequest → Call W (Option QuotaError)
  unfolding answer reconcile_reservation quota_name_for_user
  reserved s request = do
    now ← gets c.now
    let name = quota_name_for_user c.user_digest s.spec.owner.github_user_id
    answer (reconcile_reservation (quota_manager c s.namespace name now) request)

  kept : DevSandbox → Option ℤ → Call W Unit
  unfolding reserved reservation
  kept s none = pure tt
  kept s (some gib) = reserved s (reservation s (pos 0) gib) >> pure tt

  pub keep_storage : DevSandbox → Result ApiError Claim → Call W Unit
  unfolding kept gib_of
  keep_storage s (ok claim) = kept s (gib_of (c.quantity_bytes claim.storage))
  keep_storage s (err e) = pure tt

  -- fail
  unfoldable pub fail : String → ℕ → DevSandbox → Call W Verdict
  unfolding keep_storage requeue_at failed_status
  fail reason now s = do
    let s' = with_status (failed_status reason now s.spec) s
    r ← attempt (c.get_claim s.namespace (workspace_claim_name s))
    keep_storage s' r
    pure (write_status s' (requeue_at now s'.status.retention_deadline))

  unfoldable pub projected : DevSandbox → ActivityResult → Upstream → DevSandbox
  unfolding with_activity project_conditions
  projected s a u =
      let named = record s.status { upstream_sandbox_name = u.name } in
      record s {
        status =
            project_conditions c.upstream_type u.conditions
              (with_condition "ResourcesReady" "True" "Reconciled" (with_activity s a named));
      }
