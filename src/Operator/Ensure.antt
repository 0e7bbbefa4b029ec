-- ===== src/Operator/Ensure.antt =====
-- internal/operator/reconciler.go: the objects of a sandbox are read, made or brought up to date.
use aksagent_sandbox.Base.{
  ℕ, ◌/◌, String, Bool, true, false, not, ◌&&◌, Option, none, some, List, [], ◌∷◌, ◌==◌, eqb,
  if◌then◌else◌, Result, ok, err,
}
use aksagent_sandbox.Base.Int.{pos}
use aksagent_sandbox.Base.Bytes.{Bytes}
use aksagent_sandbox.Lifecycle.Activity.{JobSummary, ActivityLease, connection_stale_after, second}
use aksagent_sandbox.Lifecycle.Quota.{UserQuota}
use aksagent_sandbox.Operator.Objects.{
  DevSandbox, Claim, Account, ActivityLeaseObject, Job, Upstream,
}
use aksagent_sandbox.Operator.Names.{
  service_account_name, workspace_claim_name, activity_lease_name, labels_for, quota_name_for_user,
}
use aksagent_sandbox.Operator.Cluster.{
  ApiError, not_found, already_exists, conflict, api_fault, api_error, quota_identity,
  not_controlled, invalid_storage, Call, ◌>>=◌, ◌>>◌, pure, raise, call, write, attempt, Cluster,
}

is_same : Option Bool → Bool → Bool
is_same none b = false
is_same (some true) b = b
is_same (some false) b = not b

is_seconds : Option ℕ → ℕ → Bool
is_seconds none n = false
is_seconds (some m) n = eqb m n

module _ {W : Type 0} (c : Cluster W) where
  -- The quota of a new user.
  pub new_quota : String → UserQuota
  new_quota user = record {
    resource_version = 0;
    github_user_id = user;
    limits = record { active = pos 3; retained = pos 10; storage_gib = pos 200 };
    reserved_active = pos 0;
    retained = pos 0;
    provisioned_storage_gib = pos 0;
    reservations = [];
  }

  -- After Create: the object that another client made first is read instead.
  quota_created : DevSandbox → Bytes → Option ApiError → Call W UserQuota
  quota_created s name none = pure (new_quota s.spec.owner.github_user_id)
  quota_created s name (some already_exists) = call (c.get_quota s.namespace name)
  quota_created s name (some not_found) = raise (api_error not_found)
  quota_created s name (some conflict) = raise (api_error conflict)
  quota_created s name (some (api_fault n)) = raise (api_error (api_fault n))

  created : (W → Option ApiError × W) → Call W (Option ApiError)
  created m w = let (r, w') = m w in (ok r, w')

  quota_read : DevSandbox → Bytes → Result ApiError UserQuota → Call W UserQuota
  unfolding quota_created created
  quota_read s name (ok q) =
      if q.github_user_id == s.spec.owner.github_user_id then pure q else raise quota_identity
  quota_read s name (err not_found) = do
    r ← created (c.create_quota s.namespace name (new_quota s.spec.owner.github_user_id))
    quota_created s name r
  quota_read s name (err already_exists) = raise (api_error already_exists)
  quota_read s name (err conflict) = raise (api_error conflict)
  quota_read s name (err (api_fault n)) = raise (api_error (api_fault n))

  -- ensureQuota
  unfoldable pub ensure_quota : DevSandbox → Call W UserQuota
  unfolding quota_read quota_name_for_user
  ensure_quota s = do
    let name = quota_name_for_user c.user_digest s.spec.owner.github_user_id
    r ← attempt (c.get_quota s.namespace name)
    quota_read s name r

  abbrev pub new_claim : DevSandbox → Claim
  new_claim s = record {
    name = workspace_claim_name s;
    controller = s.uid;
    labels = labels_for s;
    storage = s.spec.profile.storage;
    volume_name = "";
  }

  claim_read : DevSandbox → Result ApiError Claim → Call W Claim
  claim_read s (ok current) =
      if current.controller == s.uid then pure current else raise not_controlled
  claim_read s (err not_found) = do
    write (c.create_claim s.namespace (workspace_claim_name s) (new_claim s))
    pure (new_claim s)
  claim_read s (err already_exists) = raise (api_error already_exists)
  claim_read s (err conflict) = raise (api_error conflict)
  claim_read s (err (api_fault n)) = raise (api_error (api_fault n))

  sized_claim : DevSandbox → Option ℕ → Call W Claim
  unfolding claim_read
  sized_claim s none = raise invalid_storage
  sized_claim s (some bytes) = do
    r ← attempt (c.get_claim s.namespace (workspace_claim_name s))
    claim_read s r

  -- ensurePVC
  unfoldable pub ensure_claim : DevSandbox → Call W Claim
  unfolding sized_claim
  ensure_claim s = sized_claim s (c.quantity_bytes s.spec.profile.storage)

  abbrev pub new_account : DevSandbox → Account
  new_account s = record {
    name = service_account_name s;
    controller = s.uid;
    labels = labels_for s;
    automount = some false;
  }

  updated_account : DevSandbox → Account → Call W Account
  unfolding is_same
  updated_account s current =
      let next = record current { labels = labels_for s; automount = some false } in
      if c.same_labels current.labels next.labels && is_same current.automount false
      then pure next
      else (do write (c.update_account s.namespace (service_account_name s) next); pure next)

  account_read : DevSandbox → Result ApiError Account → Call W Account
  unfolding updated_account
  account_read s (ok current) =
      if current.controller == s.uid then updated_account s current else raise not_controlled
  account_read s (err not_found) = do
    write (c.create_account s.namespace (service_account_name s) (new_account s))
    pure (new_account s)
  account_read s (err already_exists) = raise (api_error already_exists)
  account_read s (err conflict) = raise (api_error conflict)
  account_read s (err (api_fault n)) = raise (api_error (api_fault n))

  -- ensureServiceAccount
  unfoldable pub ensure_service_account : DevSandbox → Call W Account
  unfolding account_read
  ensure_service_account s = do
    r ← attempt (c.get_account s.namespace (service_account_name s))
    account_read s r

  abbrev pub stale_seconds : ℕ
  stale_seconds = connection_stale_after / second

  abbrev pub new_lease : DevSandbox → ActivityLeaseObject
  new_lease s = record {
    controller = s.uid;
    labels = labels_for s;
    duration_seconds = some stale_seconds;
    renew_time = none;
  }

  updated_lease : DevSandbox → ActivityLeaseObject → Call W ActivityLeaseObject
  unfolding is_seconds
  updated_lease s current =
      let next = record current { labels = labels_for s; duration_seconds = some stale_seconds } in
      if c.same_labels current.labels next.labels
        && is_seconds current.duration_seconds stale_seconds
      then pure next
      else (do write (c.update_lease s.namespace (activity_lease_name s) next); pure next)

  lease_read : DevSandbox → Result ApiError ActivityLeaseObject → Call W ActivityLeaseObject
  unfolding updated_lease
  lease_read s (ok current) =
      if current.controller == s.uid then updated_lease s current else raise not_controlled
  lease_read s (err not_found) = do
    write (c.create_lease s.namespace (activity_lease_name s) (new_lease s))
    pure (new_lease s)
  lease_read s (err already_exists) = raise (api_error already_exists)
  lease_read s (err conflict) = raise (api_error conflict)
  lease_read s (err (api_fault n)) = raise (api_error (api_fault n))

  -- ensureActivityLease
  unfoldable pub ensure_activity_lease : DevSandbox → Call W ActivityLeaseObject
  unfolding lease_read
  ensure_activity_lease s = do
    r ← attempt (c.get_lease s.namespace (activity_lease_name s))
    lease_read s r

  upstream_read : Upstream → Result ApiError Upstream → Call W Upstream
  upstream_read desired (ok current) =
      let next = record desired { conditions = current.conditions } in
      if c.same_upstream current.spec next.spec
        && (c.same_labels current.labels next.labels && current.controller == next.controller)
      then pure current
      else call (c.update_upstream next.namespace next)
  upstream_read desired (err not_found) = call (c.create_upstream desired.namespace desired)
  upstream_read desired (err already_exists) = raise (api_error already_exists)
  upstream_read desired (err conflict) = raise (api_error conflict)
  upstream_read desired (err (api_fault n)) = raise (api_error (api_fault n))

  -- applyUpstream
  unfoldable pub apply_upstream : Upstream → Call W Upstream
  unfolding upstream_read
  apply_upstream desired = do
    r ← attempt (c.get_upstream desired.namespace desired.name)
    upstream_read desired r

  lease_seen : Result ApiError ActivityLeaseObject → Call W (Option ActivityLease)
  lease_seen (ok l) = pure (some (record { renew_time = l.renew_time }))
  lease_seen (err not_found) = pure none
  lease_seen (err already_exists) = raise (api_error already_exists)
  lease_seen (err conflict) = raise (api_error conflict)
  lease_seen (err (api_fault n)) = raise (api_error (api_fault n))

  -- getActivityLease
  unfoldable pub get_activity_lease : DevSandbox → Call W (Option ActivityLease)
  unfolding lease_seen
  get_activity_lease s = do
    r ← attempt (c.get_lease s.namespace (activity_lease_name s))
    lease_seen r

  pub jobs_named : String → List Job → List JobSummary
  jobs_named name [] = []
  jobs_named name (j ∷ js) =
      let rest = jobs_named name js in if j.sandbox_name == name then j.summary ∷ rest else rest

  -- listJobs
  unfoldable pub sandbox_jobs : DevSandbox → Call W (List JobSummary)
  unfolding jobs_named
  sandbox_jobs s = do js ← call (c.list_jobs s.namespace); pure (jobs_named s.name js)
