-- ===== src/Operator/Reconcile.antt =====
-- internal/operator/reconciler.go: Reconcile. `decide` is its body up to the tail call of
-- updateStatus, which is a value that `settle` carries out.
pub mod Idle
pub mod Changes
pub mod Lifecycle
mod Examples
use aksagent_sandbox.Base.{
  ℕ, ◌+◌, ◌-◌, ◌≡◌, String, Bool, true, false, not, ◌&&◌, ◌||◌, Option, none, some, List, [], ◌∷◌,
  ◌==◌, ltb, eqb, if◌then◌else◌, Result, ok, err,
}
use aksagent_sandbox.Base.Int.{ℤ, pos}
use aksagent_sandbox.Base.Bytes.{Bytes}
use aksagent_sandbox.ApiTypes.{
  Phase, phase_pending, phase_creating, phase_running, phase_stopped, phase_failed, no_phase,
  phase_deleting, DesiredState, desire_running, desire_stopped, no_desire, other_desire,
  DevSandboxSpec,
}
use aksagent_sandbox.Lifecycle.Activity.{
  ActivityResult, ActivityLease, JobSummary, evaluate_activity, second,
}
use aksagent_sandbox.Lifecycle.Quota.{QuotaError, quota_exceeded, ReservationRequest}
use aksagent_sandbox.Lifecycle.Quota.Retry.{reconcile_reservation}
use aksagent_sandbox.Lifecycle.Secrets.{Fields}
use aksagent_sandbox.Lifecycle.Validation.{Problem, default_dev_sandbox, validate_dev_sandbox}
use aksagent_sandbox.Operator.Objects.{
  DevSandboxStatus, DevSandbox, Template, Claim, Account, ActivityLeaseObject, Upstream,
  UpstreamCondition,
}
use aksagent_sandbox.Operator.Names.{
  workspace_claim_name, activity_lease_name, quota_name_for_user, reservation_id, gib_of,
}
use aksagent_sandbox.Operator.Status.{
  Requeue, done, requeue, requeue_after, default_requeue, is_phase_running, is_phase_stopped,
  is_phase_failed, is_desire_running, is_desire_stopped, expired, requeue_at, with_condition,
  with_status, idle_timeout, should_project_activity, project_conditions, upstream_ready,
  upstream_failure, failed_status, stopped_times, running_times,
}
use aksagent_sandbox.Operator.Cluster.{
  ApiError, not_found, already_exists, conflict, api_fault, OperatorError, api_error, quota_error,
  quota_identity, not_controlled, invalid_storage, Call, ◌>>=◌, ◌>>◌, pure, raise, call, write,
  attempt, unless_not_found, gets, Cluster, quota_manager,
}
use aksagent_sandbox.Operator.Ensure.{
  ensure_quota, ensure_claim, ensure_service_account, ensure_activity_lease, apply_upstream,
  get_activity_lease, sandbox_jobs,
}
use aksagent_sandbox.Operator.Deletion.{reconcile_delete}
use aksagent_sandbox.Operator.Render.{
  blueprint_spec, has_claim_templates, render_upstream, operating_mode, shutdown_time,
}
use aksagent_sandbox.Operator.Verdict.{
  Verdict, finished, write_status, retire, desired, accepted_conditions, rejected_conditions,
  pended, next_requeue, reservation, reserved, fail, concluded, projected,
}
use aksagent_sandbox.Operator.Resolve.{resolved}

pub baseline : ℕ → ℕ → Option ℕ → ℕ
baseline now created (some last) = last
baseline now created none = if eqb created 0 then now else created

refused : DevSandbox → DevSandbox
refused s =
    if is_desire_running s.spec.desired_state
    then with_status (with_condition "TransitionValid" "False" "FailedSandbox") s
    else s

module _ {W : Type 0} (c : Cluster W) where
  -- An idle sandbox is stopped by its specification.
  pub stopped_if_idle : ℕ → DevSandbox → Template → ActivityResult → Call W Verdict
  unfolding resolved
  stopped_if_idle now s t a =
      if is_desire_running s.spec.desired_state
        && is_phase_running s.status.phase
        && a.should_idle_stop
      then (do
        stored ← call (c.update_sandbox (desired desire_stopped s))
        resolved c now stored t a desire_stopped)
      else resolved c now s t a s.spec.desired_state

  observed : ℕ → DevSandbox → Template → Call W Verdict
  unfolding stopped_if_idle baseline get_activity_lease sandbox_jobs evaluate_activity
  observed now s t = do
    lease ← get_activity_lease c s
    jobs ← sandbox_jobs c s
    let since = baseline now s.creation_time s.status.last_activity_time
    stopped_if_idle now s t (evaluate_activity now since (idle_timeout s) lease jobs)

  with_blueprint : ℕ → DevSandbox → Template → Option Fields → Call W Verdict
  unfolding observed has_claim_templates
  with_blueprint now s t none = fail c "InvalidTemplate" now s
  with_blueprint now s t (some spec) =
      if has_claim_templates spec then fail c "InvalidTemplate" now s else observed now s t

  template_read : ℕ → DevSandbox → Result ApiError Template → Call W Verdict
  unfolding with_blueprint blueprint_spec
  template_read now s (ok t) =
      if not (t.version == s.spec.template.version)
        || not (t.image_digest == s.spec.template.image_digest)
      then fail c "TemplateMismatch" now s
      else with_blueprint now s t (blueprint_spec t)
  template_read now s (err not_found) = fail c "TemplateNotFound" now s
  template_read now s (err already_exists) = raise (api_error already_exists)
  template_read now s (err conflict) = raise (api_error conflict)
  template_read now s (err (api_fault n)) = raise (api_error (api_fault n))

  validated : ℕ → DevSandbox → List Problem → Call W Verdict
  unfolding template_read
  validated now s [] = do r ← attempt (c.get_template s.spec.template.name); template_read now s r
  validated now s (p ∷ ps) = fail c "InvalidSpec" now s

  pub defaulted : ℕ → DevSandbox → Call W Verdict
  unfolding validated validate_dev_sandbox default_dev_sandbox
  defaulted now s =
      let d = record s { spec = default_dev_sandbox s.spec } in
      validated now d (validate_dev_sandbox c.formats d.spec)

  -- A failed sandbox is kept until its deadline.
  pub failed : ℕ → DevSandbox → Call W Verdict
  unfolding refused expired requeue_at
  failed now s =
      if expired s.status.retention_deadline now
      then (do unless_not_found (c.delete_sandbox (refused s)); pure (finished done))
      else pure (write_status (refused s) (requeue_at now s.status.retention_deadline))

  kept_or_reconciled : ℕ → DevSandbox → Call W Verdict
  unfolding defaulted failed expired
  kept_or_reconciled now s =
      if is_phase_failed s.status.phase
      then failed now s
      else if is_phase_stopped s.status.phase && expired s.status.retention_deadline now
      then pure
          (retire (with_status (with_condition "TransitionValid" "False" "RetentionExpired") s))
      else defaulted now s

  decided : ℕ → DevSandbox → Call W Verdict
  unfolding kept_or_reconciled reconcile_delete
  decided now s =
      if s.deleting
      then (do r ← reconcile_delete c s; pure (finished r))
      else if not s.has_finalizer
      then (do call (c.update_sandbox (record s { has_finalizer = true })); pure (finished requeue))
      else kept_or_reconciled now s

  -- Reconcile of a sandbox that was read, up to updateStatus.
  pub decide : DevSandbox → Call W Verdict
  unfolding decided
  decide s = do now ← gets c.now; decided now s

  stored_status : DevSandbox → Requeue → Result ApiError DevSandbox → Call W Requeue
  stored_status s r (ok current) =
      if c.same_status current.status s.status
      then pure r
      else (do write (c.update_status (record current { status = s.status })); pure r)
  stored_status s r (err not_found) = pure done
  stored_status s r (err already_exists) = raise (api_error already_exists)
  stored_status s r (err conflict) = raise (api_error conflict)
  stored_status s r (err (api_fault n)) = raise (api_error (api_fault n))

  -- updateStatus
  pub update_status : DevSandbox → Requeue → Call W Requeue
  unfolding stored_status
  update_status s r = do current ← attempt (c.get_sandbox); stored_status s r current

  pub settle : Verdict → Call W Requeue
  unfolding update_status
  settle (finished r) = pure r
  settle (write_status s r) = update_status s r
  settle (retire s) = do update_status s done; unless_not_found (c.delete_sandbox s); pure done

  reconcile_read : Result ApiError DevSandbox → Call W Requeue
  unfolding decide settle
  reconcile_read (ok s) = decide s >>= settle
  reconcile_read (err not_found) = pure done
  reconcile_read (err already_exists) = raise (api_error already_exists)
  reconcile_read (err conflict) = raise (api_error conflict)
  reconcile_read (err (api_fault n)) = raise (api_error (api_fault n))

  -- Reconcile
  pub reconcile : Call W Requeue
  unfolding reconcile_read
  reconcile = do r ← attempt (c.get_sandbox); reconcile_read r
