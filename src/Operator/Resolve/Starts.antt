-- ===== src/Operator/Resolve/Starts.antt =====
-- internal/operator/reconciler.go: what the quota answers, and what a start has behind it.
use aksagent_sandbox.Base.{ℕ, ◌≡◌, refl, sym, ◌∙◌, ◌⊎◌, inl, true, Option, none, some, ok, ◌&&◌}
use aksagent_sandbox.Base.Int.{ℤ, pos}
use aksagent_sandbox.ApiTypes.{
  Phase, phase_pending, phase_creating, phase_running, phase_stopped, phase_failed, phase_deleting,
  no_phase, DesiredState, desire_running, desire_stopped,
}
use aksagent_sandbox.Lifecycle.Activity.{ActivityResult}
use aksagent_sandbox.Lifecycle.Quota.{QuotaError}
use aksagent_sandbox.Operator.Objects.{DevSandboxStatus, DevSandbox, Template}
use aksagent_sandbox.Operator.Names.{gib_of}
use aksagent_sandbox.Operator.Cluster.{
  quota_error, Cluster, After, YieldsAt, Yields-YieldsAt, >>=-YieldsAt, Yields, pure-Yields,
  raise-Yields, if-Yields, >>=-Yields, ◌>>=◌, pure, call, call-ok, raise,
}
use aksagent_sandbox.Operator.Status.{
  is_desire_running, is_desire_stopped, is_phase_stopped, with_status,
}
use aksagent_sandbox.Operator.Ensure.{ensure_quota}
use aksagent_sandbox.Operator.Phases.{Step, keep, wait, IsCoherent, IsTimed}
use aksagent_sandbox.Operator.Verdict.{
  Verdict, reserved, reservation, desired, pended, accepted_conditions, rejected_conditions,
}
use aksagent_sandbox.Operator.Resolve.{
  waiting, rejected, is_quota_exceeded, answered, active_count, sized, resolved,
}
use aksagent_sandbox.Operator.Resolve.Changes.{Allowed, IsSame, fail-Allowed}
use aksagent_sandbox.Operator.Resolve.Stages.{IsEnsured, ensured-Allowed}

-- For a pass that read the status `st`: an update of the object with the phase and times of `st`, if
-- the API server accepts it, gives back an object with them. The server takes the status of an object
-- only from a write of its status, and refuses an object that is not the version that is stored; and
-- before it writes the object, a pass changes only conditions.
unfoldable pub KeepsLifecycle : {W : Type 0} → Cluster W → DevSandboxStatus → Type 0
KeepsLifecycle {W} c st =
    (s stored : DevSandbox) (w w' : W)
    → IsSame st s.status
    → c.update_sandbox s w ≡ (ok stored, w')
    → IsSame st stored.status

-- From the world `w` on, the quota of the user was ensured, it granted the reservation of one active
-- sandbox, and the sandbox was ensured.
pub record IsGranted {W : Type 0} (c : Cluster W) (now : ℕ) (s : DevSandbox) (t : Template)
    (a : ActivityResult) (w : W) : Type 0 where
  pub gib : ℤ
  pub is_gib : gib_of (c.quantity_bytes s.spec.profile.storage) ≡ some gib
  pub is_granted :
      After
        (ensure_quota c s)
        (λ _.
          After
            (reserved c s (reservation c s (pos 1) gib))
            (λ r w1. (r ≡ none) × IsEnsured c now (with_status accepted_conditions s) t a w1))
        w

pended-Step : (p : Phase) → Step p (pended p)
unfolding pended
pended-Step phase_pending = keep phase_pending
pended-Step phase_creating = keep phase_creating
pended-Step phase_running = keep phase_running
pended-Step phase_stopped = keep phase_stopped
pended-Step phase_failed = keep phase_failed
pended-Step phase_deleting = keep phase_deleting
pended-Step no_phase = wait

pended-IsTimed :
    (p : Phase) (stopped_at retention : Option ℕ)
    → IsTimed p stopped_at retention
    → IsTimed (pended p) stopped_at retention
unfolding pended IsTimed
pended-IsTimed phase_pending a r h = tt
pended-IsTimed phase_creating a r h = h
pended-IsTimed phase_running a r h = h
pended-IsTimed phase_stopped a r h = h
pended-IsTimed phase_failed a r h = h
pended-IsTimed phase_deleting a r h = tt
pended-IsTimed no_phase a r h = tt

pended-running : (p : Phase) → pended p ≡ phase_running → p ≡ phase_running
unfolding pended
pended-running phase_pending h = cc
pended-running phase_creating h = cc
pended-running phase_running h = refl
pended-running phase_stopped h = cc
pended-running phase_failed h = cc
pended-running phase_deleting h = cc
pended-running no_phase h = cc

pended-stopped : (p : Phase) → pended p ≡ phase_stopped → p ≡ phase_stopped
unfolding pended
pended-stopped phase_pending h = cc
pended-stopped phase_creating h = cc
pended-stopped phase_running h = cc
pended-stopped phase_stopped h = refl
pended-stopped phase_failed h = cc
pended-stopped phase_deleting h = cc
pended-stopped no_phase h = cc

waiting-Allowed :
    (Started Stopped : Type 0) (st : DevSandboxStatus) (s : DevSandbox)
    → IsSame st s.status
    → Allowed Started Stopped st (waiting s)
unfolding waiting Allowed IsCoherent
waiting-Allowed Started Stopped st s same = record {
  step = rw same.phase (pended-Step st.phase);
  coherent = λ h.
      rw (same.phase, same.stopped_at, same.retention)
        (pended-IsTimed st.phase st.stopped_at st.retention_deadline h);
  started = λ h. inl (sym same.phase ∙ pended-running s.status.phase h);
  stopped = λ h. inl (sym same.phase ∙ pended-stopped s.status.phase h);
}

module _ {W : Type 0} (c : Cluster W) (st : DevSandboxStatus) (keeps : KeepsLifecycle c st)
    (alive : ¬ (st.phase ≡ phase_failed)) (now : ℕ) (a : ActivityResult) where
  rejected-Allowed :
      (Started Stopped : Type 0) (s : DevSandbox)
      → IsSame st s.status
      → Yields (Allowed Started Stopped st) (rejected c s)
  unfolding rejected KeepsLifecycle
  rejected-Allowed Started Stopped s same =
      let marked = with_status rejected_conditions s in
      let next = desired desire_stopped marked in
      let P = Allowed Started Stopped st in
      let own : IsSame st marked.status = record {
        phase = same.phase;
        stopped_at = same.stopped_at;
        retention = same.retention;
      } in
      if-Yields P (is_phase_stopped s.status.phase && is_desire_running s.spec.desired_state)
        (call (c.update_sandbox next) >>= λ stored. pure (waiting stored)) (pure (waiting marked))
        (λ _.
          >>=-Yields P (call (c.update_sandbox next)) (λ stored. pure (waiting stored))
            (λ stored w w1 h. pure-Yields W P (waiting stored) (
              waiting-Allowed Started Stopped st stored
                (keeps next stored w w1 own (call-ok (c.update_sandbox next) w stored w1 h)))))
        (λ _. pure-Yields W P _ (waiting-Allowed Started Stopped st marked own))

  module _ (e : DesiredState) (known : (e ≡ desire_running) ⊎ (e ≡ desire_stopped)) (s : DevSandbox)
      (same : IsSame st s.status) (t : Template) (Started Stopped : Type 0)
      (stops : is_desire_stopped e ≡ true → Stopped) where
    abbrev Fine : Verdict → Type 0
    Fine = Allowed Started Stopped st

    answered-Allowed :
        (r : Option QuotaError) (w : W)
        → (r ≡ none
            → e ≡ desire_running
            → IsEnsured c now (with_status accepted_conditions s) t a w
            → Started)
        → YieldsAt Fine (answered c now s t a e r) w
    unfolding answered
    answered-Allowed none w quota =
        ensured-Allowed c Started Stopped st alive e known stops now a
          (with_status accepted_conditions s) t w (quota refl)
    answered-Allowed (some x) w quota =
        Yields-YieldsAt Fine _
          (if-Yields Fine (is_quota_exceeded x) (rejected c s) (raise (quota_error x))
            (λ _. rejected-Allowed Started Stopped s same)
            (λ _. raise-Yields W Fine (quota_error x)))
          w

    sized-Allowed :
        (gib : Option ℤ) (w : W)
        → gib_of (c.quantity_bytes s.spec.profile.storage) ≡ gib
        → (e ≡ desire_running → IsGranted c now s t a w → Started)
        → YieldsAt Fine (sized c now s t a e gib) w
    unfolding sized
    sized-Allowed none w size quota =
        Yields-YieldsAt Fine _ (fail-Allowed c Started Stopped st alive "InvalidStorage" now s) w
    sized-Allowed (some gib) w size quota =
        let ask = reserved c s (reservation c s (active_count e) gib) in
        >>=-YieldsAt Fine (ensure_quota c s) (λ _. ask >>= answered c now s t a e) w
          (λ u w1 h. >>=-YieldsAt Fine ask (answered c now s t a e) w1 (λ r w2 k.
            answered-Allowed r w2 (λ p run rest. quota run (record {
              gib = gib;
              is_gib = size;
              is_granted = (u, w1, h, (r, w2, (rw run at k), (p, rest)));
            }))))

    pub resolved-Allowed :
        (w : W)
        → (e ≡ desire_running → IsGranted c now s t a w → Started)
        → YieldsAt Fine (resolved c now s t a e) w
    unfolding resolved
    resolved-Allowed w quota =
        sized-Allowed (gib_of (c.quantity_bytes s.spec.profile.storage)) w refl quota
