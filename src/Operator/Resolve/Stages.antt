-- ===== src/Operator/Resolve/Stages.antt =====
-- internal/operator/reconciler.go: every stage from the choice between running and stopped on writes
-- a status that the lifecycle allows.
use aksagent_sandbox.Base.{
  ℕ, ◌≡◌, ◌⊎◌, inl, inr, refl, String, true, false, Option, none, some, Result, ok, err,
}
use aksagent_sandbox.ApiTypes.{phase_failed, DesiredState, desire_running, desire_stopped}
use aksagent_sandbox.Lifecycle.Activity.{ActivityResult}
use aksagent_sandbox.Operator.Objects.{
  DevSandboxStatus, DevSandbox, Template, Upstream, Account, ActivityLeaseObject, Claim,
}
use aksagent_sandbox.Operator.Names.{activity_lease_name, upstream_sandbox_name}
use aksagent_sandbox.Operator.Cluster.{
  OperatorError, api_error, not_found, already_exists, conflict, api_fault, quota_error,
  quota_identity, not_controlled, invalid_storage, Cluster, pure-Yields, Yields-YieldsAt, After,
  YieldsAt, if-YieldsAt, >>=-YieldsAt, ◌>>=◌, ◌>>◌, pure, attempt, attempt-ok, unless_not_found,
}
use aksagent_sandbox.Operator.Status.{
  is_desire_running, is_desire_stopped, with_status, running_times, upstream_ready,
  upstream_failure, requeue,
}
use aksagent_sandbox.Operator.Ensure.{
  apply_upstream, ensure_claim, ensure_service_account, ensure_activity_lease,
}
use aksagent_sandbox.Operator.Verdict.{Verdict, finished, fail, concluded, projected}
use aksagent_sandbox.Operator.Render.{RenderOptions, render_upstream, shutdown_time}
use aksagent_sandbox.Operator.Resolve.{
  controlled, render_options, failure_seen, applied, with_upstream, timed, with_account,
  lease_ready, account_ready, claim_ready, ensured,
}
use aksagent_sandbox.Operator.Resolve.Changes.{
  Allowed, Fits, timed-Fits, same-Fits, projected-IsSame, fail-Allowed, concluded-Allowed,
}

-- How a sandbox that is to run is rendered.
abbrev pub running_options : ℕ → DevSandbox → ActivityResult → Claim → Account → RenderOptions
running_options now s a claim account = record {
  now = now;
  operating_mode = "Running";
  shutdown_time = shutdown_time now s a desire_running;
  service_account = account.name;
  pvc_name = claim.name;
  upstream_name = upstream_sandbox_name s;
}

-- The Sandbox that is rendered for this sandbox to run, owned by it, was applied at the world `w` and
-- is ready.
pub record IsReady {W : Type 0} (c : Cluster W) (now : ℕ) (s : DevSandbox) (t : Template)
    (a : ActivityResult) (claim : Claim) (account : Account) (w : W) : Type 0 where
  pub wanted : Upstream
  pub is_wanted :
      render_upstream (with_status running_times s) t (running_options now s a claim account)
      ≡ some wanted
  pub is_applied :
      After
        (apply_upstream c (record wanted { controller = s.uid }))
        (λ u _. upstream_ready u.conditions ≡ true)
        w

-- From the world `w` on, the claim, the account and the activity lease were ensured, then the Sandbox
-- was applied.
abbrev pub IsEnsured :
    {W : Type 0} → Cluster W → ℕ → DevSandbox → Template → ActivityResult → W → Type 0
IsEnsured c now s t a = After (ensure_claim c s) (λ claim.
    After (ensure_service_account c s)
      (λ account. After (ensure_activity_lease c s) (λ _. IsReady c now s t a claim account)))

pub running_of :
    (e : DesiredState)
    → (e ≡ desire_running) ⊎ (e ≡ desire_stopped)
    → is_desire_stopped e ≡ false
    → e ≡ desire_running
running_of e (inl p) h = p
running_of e (inr p) h = cc (rw p at h)

is_running_of : (e : DesiredState) → is_desire_running e ≡ false → ¬ (e ≡ desire_running)
is_running_of e h p = cc (rw p at h)

rendered_running :
    (e : DesiredState) (now : ℕ) (s : DevSandbox) (t : Template) (a : ActivityResult)
    (claim : Claim) (account : Account) (v : Upstream)
    → e ≡ desire_running
    → render_upstream (timed now e s) t (render_options now s a e claim account) ≡ some v
    → render_upstream (with_status running_times s) t (running_options now s a claim account)
      ≡ some v
unfolding timed
rendered_running e now s t a claim account v p h = rw p at h

applied_running :
    {W : Type 0} (c : Cluster W) (e : DesiredState) (now : ℕ) (s : DevSandbox) (v : Upstream)
    (w : W)
    → e ≡ desire_running
    → After
        (apply_upstream c (controlled (timed now e s) v))
        (λ u _. upstream_ready u.conditions ≡ true)
        w
    → After
        (apply_upstream c (record v { controller = s.uid }))
        (λ u _. upstream_ready u.conditions ≡ true)
        w
unfolding timed controlled
applied_running c e now s v w p h = rw p at h

module _ {W : Type 0} (c : Cluster W) (Started Stopped : Type 0) (st : DevSandboxStatus)
    (alive : ¬ (st.phase ≡ phase_failed)) (e : DesiredState)
    (known : (e ≡ desire_running) ⊎ (e ≡ desire_stopped))
    (stops : is_desire_stopped e ≡ true → Stopped) (now : ℕ) (a : ActivityResult) where
  abbrev Fine : Verdict → Type 0
  Fine = Allowed Started Stopped st

  failed-Allowed :
      (reason : String) (s : DevSandbox) (w : W) → YieldsAt Fine (fail c reason now s) w
  failed-Allowed reason s w =
      Yields-YieldsAt Fine (fail c reason now s)
        (fail-Allowed c Started Stopped st alive reason now s) w

  pure-Allowed : (v : Verdict) (w : W) → Fine v → YieldsAt {W = W} Fine (pure v) w
  pure-Allowed v w h = Yields-YieldsAt Fine (pure v) (pure-Yields W Fine v h) w

  failure_seen-Allowed :
      (s : DevSandbox) (u : Upstream) (failure : Option String) (w : W)
      → Fits e s.status
      → (e ≡ desire_running → upstream_ready u.conditions ≡ true → Started)
      → YieldsAt Fine (failure_seen c now s a e u failure) w
  unfolding failure_seen
  failure_seen-Allowed s u (some reason) w fits quota = failed-Allowed reason s w
  failure_seen-Allowed s u none w fits quota =
      pure-Allowed (concluded now (projected c s a u) a e u.conditions) w (
        concluded-Allowed c Started Stopped st alive e stops now (projected c s a u) a u.conditions
          (same-Fits e s.status _ fits (projected-IsSame c s a u))
          (λ other. quota (running_of e known other)))

  applied-Allowed :
      (s : DevSandbox) (r : Result OperatorError Upstream) (w : W)
      → Fits e s.status
      → ((u : Upstream)
          → r ≡ ok u
          → e ≡ desire_running
          → upstream_ready u.conditions ≡ true
          → Started)
      → YieldsAt Fine (applied c now s a e r) w
  unfolding applied Allowed
  applied-Allowed s (ok u) w fits quota =
      failure_seen-Allowed s u (upstream_failure u.conditions) w fits (quota u refl)
  applied-Allowed s (err (api_error conflict)) w fits quota = pure-Allowed (finished requeue) w tt
  applied-Allowed s (err (api_error not_found)) w fits quota = failed-Allowed "UpstreamFailed" s w
  applied-Allowed s (err (api_error already_exists)) w fits quota =
      failed-Allowed "UpstreamFailed" s w
  applied-Allowed s (err (api_error (api_fault n))) w fits quota =
      failed-Allowed "UpstreamFailed" s w
  applied-Allowed s (err (quota_error q)) w fits quota = failed-Allowed "UpstreamFailed" s w
  applied-Allowed s (err quota_identity) w fits quota = failed-Allowed "UpstreamFailed" s w
  applied-Allowed s (err not_controlled) w fits quota = failed-Allowed "UpstreamFailed" s w
  applied-Allowed s (err invalid_storage) w fits quota = failed-Allowed "UpstreamFailed" s w

  with_upstream-Allowed :
      (s : DevSandbox) (wanted : Option Upstream) (w : W)
      → Fits e s.status
      → ((v : Upstream)
          → wanted ≡ some v
          → e ≡ desire_running
          → After (apply_upstream c (controlled s v)) (λ u _. upstream_ready u.conditions ≡ true) w
          → Started)
      → YieldsAt Fine (with_upstream c now s a e wanted) w
  unfolding with_upstream
  with_upstream-Allowed s none w fits quota = failed-Allowed "RenderFailed" s w
  with_upstream-Allowed s (some v) w fits quota =
      let apply = apply_upstream c (controlled s v) in
      >>=-YieldsAt Fine (attempt apply) (applied c now s a e) w (λ r w1 h.
        applied-Allowed s r w1 fits
          (λ u p run ready. quota v refl run (u, w1, rw p at (attempt-ok apply w r w1 h), ready)))

  with_account-Allowed :
      (s : DevSandbox) (t : Template) (claim : Claim) (account : Account) (w : W)
      → (e ≡ desire_running → IsReady c now s t a claim account w → Started)
      → YieldsAt Fine (with_account c now s t a e claim account) w
  unfolding with_account
  with_account-Allowed s t claim account w quota =
      with_upstream-Allowed (timed now e s) _ w (timed-Fits now e s) (λ v h run applied.
        quota run (record {
          wanted = v;
          is_wanted = rendered_running e now s t a claim account v run h;
          is_applied = applied_running c e now s v w run applied;
        }))

  lease_ready-Allowed :
      (s : DevSandbox) (t : Template) (claim : Claim) (account : Account)
      (r : Result OperatorError ActivityLeaseObject) (w : W)
      → ((l : ActivityLeaseObject)
          → r ≡ ok l
          → e ≡ desire_running
          → IsReady c now s t a claim account w
          → Started)
      → YieldsAt Fine (lease_ready c now s t a e claim account r) w
  unfolding lease_ready
  lease_ready-Allowed s t claim account (ok l) w quota =
      with_account-Allowed s t claim account w (quota l refl)
  lease_ready-Allowed s t claim account (err x) w quota = failed-Allowed "ActivityLeaseFailed" s w

  account_ready-Allowed :
      (s : DevSandbox) (t : Template) (claim : Claim) (r : Result OperatorError Account) (w : W)
      → ((account : Account)
          → r ≡ ok account
          → e ≡ desire_running
          → After (ensure_activity_lease c s) (λ _. IsReady c now s t a claim account) w
          → Started)
      → YieldsAt Fine (account_ready c now s t a e claim r) w
  unfolding account_ready
  account_ready-Allowed s t claim (err x) w quota = failed-Allowed "ServiceAccountFailed" s w
  account_ready-Allowed s t claim (ok account) w quota =
      let ensure = attempt (ensure_activity_lease c s) in
      let drop = unless_not_found (c.delete_lease s.namespace (activity_lease_name s)) in
      if-YieldsAt Fine (is_desire_running e) (ensure >>= lease_ready c now s t a e claim account)
        (drop >> with_account c now s t a e claim account) w
        (λ _. >>=-YieldsAt Fine ensure (lease_ready c now s t a e claim account) w (λ r w1 h.
          lease_ready-Allowed s t claim account r w1 (λ l p run ready.
            quota account refl run
              (l, w1, rw p at (attempt-ok (ensure_activity_lease c s) w r w1 h), ready))))
        (λ idle.
          >>=-YieldsAt Fine drop (λ _. with_account c now s t a e claim account) w
            (λ _ w1 _.
              with_account-Allowed s t claim account w1
                (λ run _. absurd (is_running_of e idle run))))

  claim_ready-Allowed :
      (s : DevSandbox) (t : Template) (r : Result OperatorError Claim) (w : W)
      → ((claim : Claim)
          → r ≡ ok claim
          → e ≡ desire_running
          → After
              (ensure_service_account c s)
              (λ account.
                After (ensure_activity_lease c s) (λ _. IsReady c now s t a claim account))
              w
          → Started)
      → YieldsAt Fine (claim_ready c now s t a e r) w
  unfolding claim_ready
  claim_ready-Allowed s t (err x) w quota = failed-Allowed "PVCFailed" s w
  claim_ready-Allowed s t (ok claim) w quota =
      let ensure = ensure_service_account c s in
      >>=-YieldsAt Fine (attempt ensure) (account_ready c now s t a e claim) w (λ r w1 h.
        account_ready-Allowed s t claim r w1 (λ account p run rest.
          quota claim refl run (account, w1, rw p at (attempt-ok ensure w r w1 h), rest)))

  pub ensured-Allowed :
      (s : DevSandbox) (t : Template) (w : W)
      → (e ≡ desire_running → IsEnsured c now s t a w → Started)
      → YieldsAt Fine (ensured c now s t a e) w
  unfolding ensured
  ensured-Allowed s t w quota =
      let ensure = ensure_claim c s in
      >>=-YieldsAt Fine (attempt ensure) (claim_ready c now s t a e) w (λ r w1 h.
        claim_ready-Allowed s t r w1
          (λ claim p run rest. quota run (claim, w1, rw p at (attempt-ok ensure w r w1 h), rest)))
