-- ===== src/Operator/Deletion/Children.antt =====
-- internal/operator/reconciler.go: what is gone when the children and the jobs were deleted.
use aksagent_sandbox.Base.{
  String, ◌≡◌, ◌≢◌, refl, inl, inr, Option, none, some, List, [], ◌∷◌, ◌==◌, eq_iff, arith, ok,
  Bool-cases,
}
use aksagent_sandbox.Operator.Objects.{DevSandbox, Job}
use aksagent_sandbox.Operator.Names.{
  service_account_name, workspace_claim_name, upstream_sandbox_name, activity_lease_name,
}
use aksagent_sandbox.Operator.Cluster.{
  ApiError, not_found, already_exists, conflict, api_fault, ◌>>◌, ◌>>=◌, call, delete_result,
  unless_not_found, Cluster, >>=-ok, call-ok,
}
use aksagent_sandbox.Operator.Deletion.{delete_jobs, delete_children}

-- A deletion made at the world `w` was accepted, or there was nothing to delete.
pub data IsDeleted {W : Type 0} (m : W → Option ApiError × W) (w w' : W) : Type 0 where
  deleted : m w ≡ (none, w') → IsDeleted m w w'
  missing : m w ≡ (some not_found, w') → IsDeleted m w w'

delete_result-IsDeleted :
    {W : Type 0} (m : W → Option ApiError × W) (w w' : W) (p : Option ApiError × W)
    → m w ≡ p
    → delete_result p ≡ (ok tt, w')
    → IsDeleted m w w'
delete_result-IsDeleted m w w' (none, w1) e h = let k : w1 ≡ w' = cc in deleted (rw k at e)
delete_result-IsDeleted m w w' (some not_found, w1) e h =
    let k : w1 ≡ w' = cc in missing (rw k at e)
delete_result-IsDeleted m w w' (some already_exists, w1) e h = cc
delete_result-IsDeleted m w w' (some conflict, w1) e h = cc
delete_result-IsDeleted m w w' (some (api_fault n), w1) e h = cc

unless_not_found-IsDeleted :
    {W : Type 0} (m : W → Option ApiError × W) (w : W) (u : Unit) (w' : W)
    → unless_not_found m w ≡ (ok u, w')
    → IsDeleted m w w'
unless_not_found-IsDeleted m w tt w' h = delete_result-IsDeleted m w w' (m w) refl h

module _ {W : Type 0} (c : Cluster W) where
  -- Of the listed jobs, those of the sandbox are deleted in turn, and the others are left.
  pub data AreJobsGone (name : String) : List Job → W → W → Type 0 where
    all_seen : {w : W} → AreJobsGone name [] w w
    gone :
        {j : Job} {js : List Job} {w w1 w' : W}
        → j.sandbox_name ≡ name
        → IsDeleted (c.delete_job j) w w1
        → AreJobsGone name js w1 w'
        → AreJobsGone name (j ∷ js) w w'
    left :
        {j : Job} {js : List Job} {w w' : W}
        → j.sandbox_name ≢ name
        → AreJobsGone name js w w'
        → AreJobsGone name (j ∷ js) w w'

  delete_jobs-AreJobsGone :
      (name : String) (js : List Job) (w : W) (u : Unit) (w' : W)
      → delete_jobs c name js w ≡ (ok u, w')
      → AreJobsGone name js w w'
  unfolding delete_jobs
  delete_jobs-AreJobsGone name [] w u w' h = let e : w ≡ w' = cc in rw (← e) all_seen
  delete_jobs-AreJobsGone name (j ∷ js) w u w' h = elim (Bool-cases (j.sandbox_name == name)) [
    | inl p ↦
        let (x, w1, q, k) =
          >>=-ok (unless_not_found (c.delete_job j)) (λ _. delete_jobs c name js) w u w'
            (rw p at h) in
        gone ((eq_iff j.sandbox_name name).0 p)
          (unless_not_found-IsDeleted (c.delete_job j) w x w1 q)
          (delete_jobs-AreJobsGone name js w1 u w' k)
    | inr p ↦
        left (λ e. ground (arith, eq_iff j.sandbox_name name))
          (delete_jobs-AreJobsGone name js w u w' (rw p at h))
  ]

  module _ (s : DevSandbox) where
    -- The lease, the account, the claim and the Sandbox were deleted by their names, one after the
    -- other, and then the jobs of the sandbox that a listing of its namespace gave.
    pub record AreChildrenGone (w w' : W) : Type 0 where
      pub w1 : W
      pub w2 : W
      pub w3 : W
      pub w4 : W
      pub w5 : W
      pub lease : IsDeleted (c.delete_lease s.namespace (activity_lease_name s)) w w1
      pub account : IsDeleted (c.delete_account s.namespace (service_account_name s)) w1 w2
      pub claim : IsDeleted (c.delete_claim s.namespace (workspace_claim_name s)) w2 w3
      pub upstream : IsDeleted (c.delete_upstream s.namespace (upstream_sandbox_name s)) w3 w4
      pub listed : List Job
      pub is_listed : c.list_jobs s.namespace w4 ≡ (ok listed, w5)
      pub jobs : AreJobsGone s.name listed w5 w'

    pub delete_children-AreChildrenGone :
        (w : W) (u : Unit) (w' : W) → delete_children c s w ≡ (ok u, w') → AreChildrenGone w w'
    unfolding delete_children
    delete_children-AreChildrenGone w u w' h =
        let lease = c.delete_lease s.namespace (activity_lease_name s) in
        let account = c.delete_account s.namespace (service_account_name s) in
        let claim = c.delete_claim s.namespace (workspace_claim_name s) in
        let upstream = c.delete_upstream s.namespace (upstream_sandbox_name s) in
        let list = c.list_jobs s.namespace in
        let jobs = call list >>= delete_jobs c s.name in
        let last = unless_not_found upstream >> jobs in
        let rest = unless_not_found claim >> last in
        let (u1, w1, p1, h1) =
          >>=-ok (unless_not_found lease) (λ _. unless_not_found account >> rest) w u w' h in
        let (u2, w2, p2, h2) = >>=-ok (unless_not_found account) (λ _. rest) w1 u w' h1 in
        let (u3, w3, p3, h3) = >>=-ok (unless_not_found claim) (λ _. last) w2 u w' h2 in
        let (u4, w4, p4, h4) = >>=-ok (unless_not_found upstream) (λ _. jobs) w3 u w' h3 in
        let (js, w5, p5, h5) = >>=-ok (call list) (delete_jobs c s.name) w4 u w' h4 in
        record {
          w1 = w1;
          w2 = w2;
          w3 = w3;
          w4 = w4;
          w5 = w5;
          lease = unless_not_found-IsDeleted lease w u1 w1 p1;
          account = unless_not_found-IsDeleted account w1 u2 w2 p2;
          claim = unless_not_found-IsDeleted claim w2 u3 w3 p3;
          upstream = unless_not_found-IsDeleted upstream w3 u4 w4 p4;
          listed = js;
          is_listed = call-ok list w4 js w5 p5;
          jobs = delete_jobs-AreJobsGone s.name js w5 u w' h5;
        }
