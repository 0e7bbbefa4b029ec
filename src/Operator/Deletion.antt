-- ===== src/Operator/Deletion.antt =====
-- internal/operator/reconciler.go: reconcileDelete.
pub mod Children
pub mod Cleaned
mod Examples
use aksagent_sandbox.Base.{
  ℕ, ◌≡◌, String, Bool, true, false, not, ◌&&◌, ◌||◌, Option, none, some, List, [], ◌∷◌, ◌==◌,
  if◌then◌else◌, Result, ok, err,
}
use aksagent_sandbox.Base.Bytes.{Bytes}
use aksagent_sandbox.Lifecycle.Activity.{second}
use aksagent_sandbox.Lifecycle.Quota.{QuotaError, store_failed, not_converged}
use aksagent_sandbox.Lifecycle.Quota as Quota
use aksagent_sandbox.Lifecycle.Quota.Retry.{release}
use aksagent_sandbox.Operator.Objects.{DevSandbox, Claim, Job}
use aksagent_sandbox.Operator.Names.{
  service_account_name, workspace_claim_name, upstream_sandbox_name, activity_lease_name,
  quota_name_for_user, reservation_id,
}
use aksagent_sandbox.Operator.Status.{Requeue, done, requeue, requeue_after}
use aksagent_sandbox.Operator.Cluster.{
  ApiError, not_found, already_exists, conflict, api_fault, OperatorError, api_error, quota_error,
  Call, ◌>>=◌, ◌>>◌, pure, raise, call, unless_not_found, attempt, gets, Cluster, quota_manager,
}

-- apierrors.IsNotFound, which looks through the errors that `%w` wraps.
unfoldable pub is_not_found : QuotaError → Bool
is_not_found (store_failed Quota.not_found) = true
is_not_found (not_converged _ (some Quota.not_found)) = true
is_not_found _ = false

module _ {W : Type 0} (c : Cluster W) where
  delete_jobs : String → List Job → Call W Unit
  delete_jobs name [] = pure tt
  delete_jobs name (j ∷ js) =
      let rest = delete_jobs name js in
      if j.sandbox_name == name then (do unless_not_found (c.delete_job j); rest) else rest

  -- The children, then the jobs.
  pub delete_children : DevSandbox → Call W Unit
  unfolding delete_jobs
  delete_children s = do
    unless_not_found (c.delete_lease s.namespace (activity_lease_name s))
    unless_not_found (c.delete_account s.namespace (service_account_name s))
    unless_not_found (c.delete_claim s.namespace (workspace_claim_name s))
    unless_not_found (c.delete_upstream s.namespace (upstream_sandbox_name s))
    js ← call (c.list_jobs s.namespace)
    delete_jobs s.name js

  pub finish : DevSandbox → Call W Requeue
  finish s = do call (c.update_sandbox (record s { has_finalizer = false })); pure done

  released : DevSandbox → Option QuotaError → Call W Requeue
  unfolding finish is_not_found
  released s none = finish s
  released s (some e) = if is_not_found e then finish s else raise (quota_error e)

  freed : (W → Option QuotaError × W) → Call W (Option QuotaError)
  freed m w = let (r, w') = m w in (ok r, w')

  -- The reservation is released, then the finalizer removed.
  pub release_quota : DevSandbox → Call W Requeue
  unfolding released freed release quota_name_for_user reservation_id
  release_quota s = do
    now ← gets c.now
    let name = quota_name_for_user c.user_digest s.spec.owner.github_user_id
    r ← freed (release (quota_manager c s.namespace name now) (reservation_id c.joined_name s))
    released s r

  volume_read : DevSandbox → Result ApiError Unit → Call W Requeue
  unfolding release_quota
  volume_read s (ok _) = do
    unless_not_found (c.delete_volume s.workspace_pv)
    pure (requeue_after second)
  volume_read s (err not_found) = release_quota s
  volume_read s (err already_exists) = raise (api_error already_exists)
  volume_read s (err conflict) = raise (api_error conflict)
  volume_read s (err (api_fault n)) = raise (api_error (api_fault n))

  delete_volume_first : DevSandbox → Call W Requeue
  unfolding volume_read
  delete_volume_first s =
      if s.workspace_pv == ""
      then release_quota s
      else (do r ← attempt (c.get_volume s.workspace_pv); volume_read s r)

  claim_left : DevSandbox → Result ApiError Claim → Call W Requeue
  unfolding delete_volume_first
  claim_left s (ok _) = pure (requeue_after second)
  claim_left s (err not_found) = delete_volume_first s
  claim_left s (err already_exists) = raise (api_error already_exists)
  claim_left s (err conflict) = raise (api_error conflict)
  claim_left s (err (api_fault n)) = raise (api_error (api_fault n))

  pub clean_up : DevSandbox → Call W Requeue
  unfolding delete_children claim_left
  clean_up s = do
    delete_children s
    r ← attempt (c.get_claim s.namespace (workspace_claim_name s))
    claim_left s r

  -- The name of the volume is recorded before the claim goes.
  claim_seen : DevSandbox → Result ApiError Claim → Call W Requeue
  unfolding clean_up
  claim_seen s (ok claim) =
      if not (claim.volume_name == "") && s.workspace_pv == ""
      then (do
        call (c.update_sandbox (record s { workspace_pv = claim.volume_name }))
        pure requeue)
      else clean_up s
  claim_seen s (err not_found) = clean_up s
  claim_seen s (err already_exists) = raise (api_error already_exists)
  claim_seen s (err conflict) = raise (api_error conflict)
  claim_seen s (err (api_fault n)) = raise (api_error (api_fault n))

  -- reconcileDelete
  unfoldable pub reconcile_delete : DevSandbox → Call W Requeue
  unfolding claim_seen
  reconcile_delete s =
      if s.has_finalizer
      then (do r ← attempt (c.get_claim s.namespace (workspace_claim_name s)); claim_seen s r)
      else pure done
