-- ===== src/Operator/Resolve.antt =====
-- internal/operator/reconciler.go: Reconcile from the choice between running and stopped on.
pub mod Changes
pub mod Stages
pub mod Starts
use aksagent_sandbox.Base.{
  ℕ, ◌+◌, ◌-◌, ◌≡◌, String, Bool, true, false, not, ◌&&◌, ◌||◌, Option, none, some, List, [], ◌∷◌,
  ◌==◌, ltb, eqb, if◌then◌else◌, Result, ok, err,
}
use aksagent_sandbox.Base.Int.{ℤ, pos}
use aksagent_sandbox.Base.Bytes.{Bytes}
use aksagent_sandbox.ApiTypes.{
  Phase, phase_pending, phase_creating, phase_running, phase_stopped, phase_failed, no_phase,
  phase_deleting, DesiredState, desire_running, desire_stopped, no_desire, other_desire,
  DevSandboxSpec,
}
use aksagent_sandbox.Lifecycle.Activity.{
  ActivityResult, ActivityLease, JobSummary, evaluate_activity, second,
}
use aksagent_sandbox.Lifecycle.Quota.{QuotaError, quota_exceeded, ReservationRequest}
use aksagent_sandbox.Lifecycle.Quota.Retry.{reconcile_reservation}
use aksagent_sandbox.Lifecycle.Secrets.{Fields}
use aksagent_sandbox.Lifecycle.Validation.{Problem, default_dev_sandbox, validate_dev_sandbox}
use aksagent_sandbox.Operator.Objects.{
  DevSandboxStatus, DevSandbox, Template, Claim, Account, ActivityLeaseObject, Upstream,
  UpstreamCondition,
}
use aksagent_sandbox.Operator.Names.{
  upstream_sandbox_name, activity_lease_name, quota_name_for_user, reservation_id, gib_of,
}
use aksagent_sandbox.Operator.Status.{
  Requeue, done, requeue, requeue_after, default_requeue, is_phase_running, is_phase_stopped,
  is_phase_failed, is_desire_running, is_desire_stopped, expired, requeue_at, with_condition,
  with_status, idle_timeout, should_project_activity, project_conditions, upstream_ready,
  upstream_failure, failed_status, stopped_times, running_times,
}
use aksagent_sandbox.Operator.Cluster.{
  ApiError, not_found, already_exists, conflict, api_fault, OperatorError, api_error, quota_error,
  quota_identity, not_controlled, invalid_storage, Call, ◌>>=◌, ◌>>◌, pure, raise, call, write,
  attempt, unless_not_found, gets, Cluster, quota_manager,
}
use aksagent_sandbox.Operator.Ensure.{
  ensure_quota, ensure_claim, ensure_service_account, ensure_activity_lease, apply_upstream,
  get_activity_lease, sandbox_jobs,
}
use aksagent_sandbox.Operator.Deletion.{reconcile_delete}
use aksagent_sandbox.Operator.Render.{
  blueprint_spec, has_claim_templates, RenderOptions, render_upstream, operating_mode,
  shutdown_time,
}
use aksagent_sandbox.Operator.Verdict.{
  Verdict, finished, write_status, retire, desired, accepted_conditions, rejected_conditions,
  pended, next_requeue, reservation, reserved, fail, concluded, projected,
}

-- errors.Is(err, lifecycle.ErrQuotaExceeded)
is_quota_exceeded : QuotaError → Bool
is_quota_exceeded quota_exceeded = true
is_quota_exceeded _ = false

pub timed : ℕ → DesiredState → DevSandbox → DevSandbox
unfolding stopped_times
timed now e s =
    if is_desire_stopped e
    then with_status (stopped_times now s.spec) s
    else with_status running_times s

abbrev pub render_options :
    ℕ → DevSandbox → ActivityResult → DesiredState → Claim → Account → RenderOptions
render_options now s a e claim account = record {
  now = now;
  operating_mode = operating_mode e;
  shutdown_time = shutdown_time now s a e;
  service_account = account.name;
  pvc_name = claim.name;
  upstream_name = upstream_sandbox_name s;
}

-- controllerutil.SetControllerReference on an object that has no owner yet.
pub controlled : DevSandbox → Upstream → Upstream
controlled s u = record u { controller = s.uid }

abbrev pub active_count : DesiredState → ℤ
active_count e = if is_desire_running e then pos 1 else pos 0

waiting : DevSandbox → Verdict
unfolding pended
waiting s =
    write_status (with_status (λ st. record st { phase = pended st.phase }) s) default_requeue

module _ {W : Type 0} (c : Cluster W) where
  failure_seen :
      ℕ → DevSandbox → ActivityResult → DesiredState → Upstream → Option String → Call W Verdict
  unfolding fail concluded projected
  failure_seen now s a e u (some reason) = fail c reason now s
  failure_seen now s a e u none = pure (concluded now (projected c s a u) a e u.conditions)

  applied :
      ℕ
      → DevSandbox
      → ActivityResult
      → DesiredState
      → Result OperatorError Upstream
      → Call W Verdict
  unfolding failure_seen upstream_failure
  applied now s a e (ok u) = failure_seen now s a e u (upstream_failure u.conditions)
  applied now s a e (err (api_error conflict)) = pure (finished requeue)
  applied now s a e (err (api_error not_found)) = fail c "UpstreamFailed" now s
  applied now s a e (err (api_error already_exists)) = fail c "UpstreamFailed" now s
  applied now s a e (err (api_error (api_fault n))) = fail c "UpstreamFailed" now s
  applied now s a e (err (quota_error q)) = fail c "UpstreamFailed" now s
  applied now s a e (err quota_identity) = fail c "UpstreamFailed" now s
  applied now s a e (err not_controlled) = fail c "UpstreamFailed" now s
  applied now s a e (err invalid_storage) = fail c "UpstreamFailed" now s

  with_upstream : ℕ → DevSandbox → ActivityResult → DesiredState → Option Upstream → Call W Verdict
  unfolding applied apply_upstream controlled
  with_upstream now s a e none = fail c "RenderFailed" now s
  with_upstream now s a e (some u) = do
    r ← attempt (apply_upstream c (controlled s u))
    applied now s a e r

  with_account :
      ℕ → DevSandbox → Template → ActivityResult → DesiredState → Claim → Account → Call W Verdict
  unfolding with_upstream timed render_upstream shutdown_time
  with_account now s t a e claim account =
      with_upstream now (timed now e s) a e
        (render_upstream (timed now e s) t (render_options now s a e claim account))

  lease_ready :
      ℕ
      → DevSandbox
      → Template
      → ActivityResult
      → DesiredState
      → Claim
      → Account
      → Result OperatorError ActivityLeaseObject
      → Call W Verdict
  unfolding with_account
  lease_ready now s t a e claim account (ok l) = with_account now s t a e claim account
  lease_ready now s t a e claim account (err x) = fail c "ActivityLeaseFailed" now s

  account_ready :
      ℕ
      → DevSandbox
      → Template
      → ActivityResult
      → DesiredState
      → Claim
      → Result OperatorError Account
      → Call W Verdict
  unfolding lease_ready ensure_activity_lease
  account_ready now s t a e claim (err x) = fail c "ServiceAccountFailed" now s
  account_ready now s t a e claim (ok account) =
      if is_desire_running e
      then (do r ← attempt (ensure_activity_lease c s); lease_ready now s t a e claim account r)
      else (do
        unless_not_found (c.delete_lease s.namespace (activity_lease_name s))
        with_account now s t a e claim account)

  claim_ready :
      ℕ
      → DevSandbox
      → Template
      → ActivityResult
      → DesiredState
      → Result OperatorError Claim
      → Call W Verdict
  unfolding account_ready ensure_service_account
  claim_ready now s t a e (err x) = fail c "PVCFailed" now s
  claim_ready now s t a e (ok claim) = do
    r ← attempt (ensure_service_account c s)
    account_ready now s t a e claim r

  -- From the answer of the quota on.
  pub ensured : ℕ → DevSandbox → Template → ActivityResult → DesiredState → Call W Verdict
  unfolding claim_ready ensure_claim
  ensured now s t a e = do r ← attempt (ensure_claim c s); claim_ready now s t a e r

  -- The quota has no room: a stopped sandbox goes back to being stopped.
  pub rejected : DevSandbox → Call W Verdict
  unfolding waiting
  rejected s =
      if is_phase_stopped s.status.phase && is_desire_running s.spec.desired_state
      then (do
        stored ←
            call (c.update_sandbox (desired desire_stopped (with_status rejected_conditions s)))
        pure (waiting stored))
      else pure (waiting (with_status rejected_conditions s))

  answered :
      ℕ → DevSandbox → Template → ActivityResult → DesiredState → Option QuotaError → Call W Verdict
  unfolding ensured rejected is_quota_exceeded
  answered now s t a e none = ensured now (with_status accepted_conditions s) t a e
  answered now s t a e (some x) = if is_quota_exceeded x then rejected s else raise (quota_error x)

  sized : ℕ → DevSandbox → Template → ActivityResult → DesiredState → Option ℤ → Call W Verdict
  unfolding answered ensure_quota reserved reservation
  sized now s t a e none = fail c "InvalidStorage" now s
  sized now s t a e (some gib) = do
    ensure_quota c s
    r ← reserved c s (reservation c s (active_count e) gib)
    answered now s t a e r

  -- From the decision about the state on.
  unfoldable pub resolved :
      ℕ → DevSandbox → Template → ActivityResult → DesiredState → Call W Verdict
  unfolding sized gib_of
  resolved now s t a e = sized now s t a e (gib_of (c.quantity_bytes s.spec.profile.storage))
