-- ===== src/Operator/Deletion/Cleaned.antt =====
-- internal/operator/reconciler.go: what is gone when a deletion is done.
use aksagent_sandbox.Base.{
  ◌≡◌, ◌⊎◌, inl, inr, refl, sym, ap, ◌∙◌, true, false, not, ◌&&◌, Option, none, some, ◌==◌, eq_iff,
  if_true, Result, ok, err, Bool-cases,
}
use aksagent_sandbox.Lifecycle.Activity.{second}
use aksagent_sandbox.Base.{ℕ}
use aksagent_sandbox.Lifecycle.Quota.{
  QuotaError, names_required, values_negative, nothing_reserved, id_required, store_required,
  quota_exceeded, context_done, store_failed, not_converged,
}
use aksagent_sandbox.Lifecycle.Quota as Quota
use aksagent_sandbox.Lifecycle.Quota.Retry.{release}
use aksagent_sandbox.Operator.Objects.{DevSandbox, Claim}
use aksagent_sandbox.Operator.Names.{workspace_claim_name, quota_name_for_user, reservation_id}
use aksagent_sandbox.Operator.Status.{done, requeue, requeue_after}
use aksagent_sandbox.Operator.Cluster.{
  ApiError, not_found, already_exists, conflict, api_fault, ◌>>=◌, pure, call, attempt,
  unless_not_found, Cluster, quota_manager, >>=-ok, call-ok, attempt-ok,
}
use aksagent_sandbox.Operator.Deletion.Children.{AreChildrenGone, delete_children-AreChildrenGone}
use aksagent_sandbox.Operator.Deletion.{
  is_not_found, delete_children, finish, released, freed, release_quota, volume_read,
  delete_volume_first, claim_left, clean_up, claim_seen, reconcile_delete,
}

-- There is no object of the quota: a call found none, or tried as often as it may and found none.
pub data IsMissing : QuotaError → Type 0 where
  not_stored : IsMissing (store_failed Quota.not_found)
  never_stored : (n : ℕ) → IsMissing (not_converged n (some Quota.not_found))

is_not_found-IsMissing : (e : QuotaError) → is_not_found e ≡ true → IsMissing e
unfolding is_not_found
is_not_found-IsMissing names_required h = cc
is_not_found-IsMissing values_negative h = cc
is_not_found-IsMissing nothing_reserved h = cc
is_not_found-IsMissing id_required h = cc
is_not_found-IsMissing store_required h = cc
is_not_found-IsMissing quota_exceeded h = cc
is_not_found-IsMissing (context_done n) h = cc
is_not_found-IsMissing (store_failed Quota.not_found) h = not_stored
is_not_found-IsMissing (store_failed Quota.conflict) h = cc
is_not_found-IsMissing (store_failed (Quota.other n)) h = cc
is_not_found-IsMissing (not_converged n none) h = cc
is_not_found-IsMissing (not_converged n (some Quota.not_found)) h = never_stored n
is_not_found-IsMissing (not_converged n (some Quota.conflict)) h = cc
is_not_found-IsMissing (not_converged n (some (Quota.other m))) h = cc

module _ {W : Type 0} (c : Cluster W) (s : DevSandbox) where
  -- The quota gave the reservation up, or there is no quota, and the object without its finalizer was
  -- the last write.
  pub record IsReleased (w w' : W) : Type 0 where
    pub stored : DevSandbox
    pub answer : Option QuotaError
    pub w1 : W
    pub is_answer :
        release
          (quota_manager c s.namespace
            (quota_name_for_user c.user_digest s.spec.owner.github_user_id)
            (c.now w))
          (reservation_id c.joined_name s)
          w
        ≡ (answer, w1)
    pub is_free : (answer ≡ none) ⊎ ((e : QuotaError) × (answer ≡ some e) × IsMissing e)
    pub is_update : c.update_sandbox (record s { has_finalizer = false }) w1 ≡ (ok stored, w')

  -- The recorded volume, if one is, was not found.
  pub data VolumeGone (w : W) : W → Type 0 where
    no_volume : s.workspace_pv ≡ "" → VolumeGone w w
    volume_gone : (w' : W) → c.get_volume s.workspace_pv w ≡ (err not_found, w') → VolumeGone w w'

  pub record IsCleaned (w w' : W) : Type 0 where
    pub w1 : W
    pub w2 : W
    pub w3 : W
    pub children : AreChildrenGone c s w w1
    pub claim_gone : c.get_claim s.namespace (workspace_claim_name s) w1 ≡ (err not_found, w2)
    pub volume : VolumeGone w2 w3
    pub release : IsReleased w3 w'

  finish-update :
      (w w' : W)
      → finish c s w ≡ (ok done, w')
      → (stored : DevSandbox) × (c.update_sandbox (record s { has_finalizer = false }) w
          ≡ (ok stored, w'))
  unfolding finish
  finish-update w w' h =
      let update = c.update_sandbox (record s { has_finalizer = false }) in
      let (stored, w1, p, q) = >>=-ok (call update) (λ _. pure done) w done w' h in
      let e : w1 ≡ w' = cc in (stored, call-ok update w stored w' (p ∙ ap (λ w. (ok stored, w)) e))

  released-finish :
      (r : Option QuotaError) (w w' : W)
      → released c s r w ≡ (ok done, w')
      → ((r ≡ none) ⊎ ((e : QuotaError) × (r ≡ some e) × IsMissing e))
        × (finish c s w ≡ (ok done, w'))
  unfolding released
  released-finish none w w' h = (inl refl, h)
  released-finish (some e) w w' h = elim (Bool-cases (is_not_found e)) [
    | inl p ↦ (inr (e, refl, is_not_found-IsMissing e p), (rw p at h))
    | inr p ↦ cc (rw p at h)
  ]

  freed-pair :
      (m : W → Option QuotaError × W) (w : W) (r : Option QuotaError) (w' : W)
      → freed c m w ≡ (ok r, w')
      → m w ≡ (r, w')
  unfolding freed
  freed-pair m w r w' h = cc

  release_quota-IsReleased : (w w' : W) → release_quota c s w ≡ (ok done, w') → IsReleased w w'
  unfolding release_quota
  release_quota-IsReleased w w' h =
      let name = quota_name_for_user c.user_digest s.spec.owner.github_user_id in
      let m =
        release (quota_manager c s.namespace name (c.now w)) (reservation_id c.joined_name s) in
      let (r, w1, p, q) = >>=-ok (freed c m) (released c s) w done w' h in
      let (free, f) = released-finish r w1 w' q in
      let (stored, u) = finish-update w1 w' f in
      record {
        stored = stored;
        answer = r;
        w1 = w1;
        is_answer = freed-pair m w r w1 p;
        is_free = free;
        is_update = u;
      }

  volume_read-gone :
      (r : Result ApiError Unit) (w w' : W)
      → volume_read c s r w ≡ (ok done, w')
      → (r ≡ err not_found) × (release_quota c s w ≡ (ok done, w'))
  unfolding volume_read
  volume_read-gone (ok u) w w' h =
      let (_, w1, p, q) =
        >>=-ok (unless_not_found (c.delete_volume s.workspace_pv))
          (λ _. pure (requeue_after second)) w done w' h in
      cc
  volume_read-gone (err not_found) w w' h = (refl, h)
  volume_read-gone (err already_exists) w w' h = cc
  volume_read-gone (err conflict) w w' h = cc
  volume_read-gone (err (api_fault n)) w w' h = cc

  delete_volume_first-gone :
      (w w' : W)
      → delete_volume_first c s w ≡ (ok done, w')
      → (w1 : W) × (VolumeGone w w1) × (IsReleased w1 w')
  unfolding delete_volume_first
  delete_volume_first-gone w w' h = elim (Bool-cases (s.workspace_pv == "")) [
    | inl p ↦
        (w, no_volume ((eq_iff s.workspace_pv "").0 p), release_quota-IsReleased w w' (rw p at h))
    | inr p ↦
        let get = c.get_volume s.workspace_pv in
        let (r, w1, q, k) = >>=-ok (attempt get) (volume_read c s) w done w' (rw p at h) in
        let (e, f) = volume_read-gone r w1 w' k in
        (
          w1,
          volume_gone w1 (attempt-ok get w r w1 q ∙ ap (λ r. (r, w1)) e),
          release_quota-IsReleased w1 w' f,
        )
  ]

  claim_left-gone :
      (r : Result ApiError Claim) (w w' : W)
      → claim_left c s r w ≡ (ok done, w')
      → (r ≡ err not_found) × ((w1 : W) × (VolumeGone w w1) × (IsReleased w1 w'))
  unfolding claim_left
  claim_left-gone (ok claim) w w' h = cc
  claim_left-gone (err not_found) w w' h = (refl, delete_volume_first-gone w w' h)
  claim_left-gone (err already_exists) w w' h = cc
  claim_left-gone (err conflict) w w' h = cc
  claim_left-gone (err (api_fault n)) w w' h = cc

  clean_up-IsCleaned : (w w' : W) → clean_up c s w ≡ (ok done, w') → IsCleaned w w'
  unfolding clean_up
  clean_up-IsCleaned w w' h =
      let get = c.get_claim s.namespace (workspace_claim_name s) in
      let (u, w1, p, q) =
        >>=-ok (delete_children c s) (λ _. attempt get >>= claim_left c s) w done w' h in
      let (r, w2, p1, q1) = >>=-ok (attempt get) (claim_left c s) w1 done w' q in
      let (e, (w3, v, rel)) = claim_left-gone r w2 w' q1 in
      record {
        w1 = w1;
        w2 = w2;
        w3 = w3;
        children = delete_children-AreChildrenGone c s w u w1 p;
        claim_gone = attempt-ok get w1 r w2 p1 ∙ ap (λ r. (r, w2)) e;
        volume = v;
        release = rel;
      }

  claim_seen-IsCleaned :
      (r : Result ApiError Claim) (w w' : W) → claim_seen c s r w ≡ (ok done, w') → IsCleaned w w'
  unfolding claim_seen
  claim_seen-IsCleaned (ok claim) w w' h =
      elim (Bool-cases (not (claim.volume_name == "") && s.workspace_pv == "")) [
        | inl p ↦
            let update = c.update_sandbox (record s { workspace_pv = claim.volume_name }) in
            let (_, w1, _, q) = >>=-ok (call update) (λ _. pure requeue) w done w' (rw p at h) in cc
        | inr p ↦ clean_up-IsCleaned w w' (rw p at h)
      ]
  claim_seen-IsCleaned (err not_found) w w' h = clean_up-IsCleaned w w' h
  claim_seen-IsCleaned (err already_exists) w w' h = cc
  claim_seen-IsCleaned (err conflict) w w' h = cc
  claim_seen-IsCleaned (err (api_fault n)) w w' h = cc

  -- A reconciliation of a deleted sandbox that is done with its finalizer has, after one read of the
  -- claim, deleted in turn the lease, the account, the claim and the Sandbox of its names and those of
  -- the listed jobs that are its own, each accepted or already missing; then found neither the claim nor a recorded volume, got nil or
  -- not-found from Release of the reservation, and written the object without the finalizer, last.
  pub reconcile_delete-IsCleaned :
      (w w' : W)
      → s.has_finalizer ≡ true
      → reconcile_delete c s w ≡ (ok done, w')
      → IsCleaned (c.get_claim s.namespace (workspace_claim_name s) w).1 w'
  unfolding reconcile_delete
  reconcile_delete-IsCleaned w w' finalizer h =
      let get = c.get_claim s.namespace (workspace_claim_name s) in
      let (r, w1, p, q) = >>=-ok (attempt get) (claim_seen c s) w done w' (
        sym (
          ap (λ m. m w)
            (if_true s.has_finalizer (attempt get >>= claim_seen c s) (pure done) finalizer))
        ∙ h) in
      let e : w1 ≡ (get w).1 = ap (λ z. z.1) (sym (attempt-ok get w r w1 p)) in
      claim_seen-IsCleaned r (get w).1 w' (rw e at q)
