-- ===== src/Operator/Reconcile/Lifecycle.antt =====
-- internal/operator/reconciler.go: the lifecycle of a sandbox over one pass of Reconcile.
use aksagent_sandbox.Base.{
  ℕ, ◌≡◌, refl, sym, ◌∙◌, ◌⊎◌, inl, inr, true, false, not, ◌&&◌, ok, Bool-cases, if◌then◌else◌,
}
use aksagent_sandbox.Operator.Reconcile.Idle.{IsIdlePass, IsStarted}
use aksagent_sandbox.Lifecycle.Validation.{default_dev_sandbox}
use aksagent_sandbox.ApiTypes.{phase_stopped, desire_stopped, phase_running, phase_failed}
use aksagent_sandbox.Operator.Objects.{DevSandbox}
use aksagent_sandbox.Operator.Cluster.{
  Call, Cluster, YieldsAt, Yields-YieldsAt, pure-Yields, if-YieldsAt, >>=-YieldsAt, ◌>>=◌, ◌>>◌,
  pure, call, unless_not_found,
}
use aksagent_sandbox.Operator.Status.{
  Requeue, done, requeue, requeue_at, expired, is_desire_running, is_phase_stopped, is_phase_failed,
  with_condition, with_status,
}
use aksagent_sandbox.Operator.Deletion.{reconcile_delete}
use aksagent_sandbox.Operator.Phases.{Step, keep, IsCoherent}
use aksagent_sandbox.Operator.Verdict.{Verdict, finished, write_status, retire}
use aksagent_sandbox.Operator.Resolve.Changes.{Change, Allowed, IsSame}
use aksagent_sandbox.Operator.Resolve.Starts.{KeepsLifecycle}
use aksagent_sandbox.Operator.Reconcile.{
  defaulted, refused, failed, kept_or_reconciled, decided, decide,
}
use aksagent_sandbox.Operator.Reconcile.Changes.{defaulted-Allowed}

module _ {W : Type 0} (c : Cluster W) (s : DevSandbox) (keeps : KeepsLifecycle c s.status) where
  -- The sandbox with its defaults, which is what a pass works on.
  abbrev defaults : DevSandbox
  defaults = record s { spec = default_dev_sandbox s.spec }

  abbrev Halted : W → Type 0
  Halted w = (s.spec.desired_state ≡ desire_stopped) ⊎ IsIdlePass c defaults w

  abbrev Fine : W → Verdict → Type 0
  Fine w = Allowed (IsStarted c defaults w) (Halted w) s.status

  same_status :
      (w : W) (s' : DevSandbox)
      → IsSame s.status s'.status
      → Change (IsStarted c defaults w) (Halted w) s.status s'.status
  unfolding IsCoherent
  same_status w s' same = record {
    step = rw same.phase (keep s.status.phase);
    coherent = λ h. rw (same.phase, same.stopped_at, same.retention) h;
    started = λ h. inl (sym same.phase ∙ h);
    stopped = λ h. inl (sym same.phase ∙ h);
  }

  refused-IsSame : IsSame s.status (refused s).status
  unfolding refused
  refused-IsSame = elim (Bool-cases (is_desire_running s.spec.desired_state)) [
    | inl p ↦ rw p (record { phase = refl; stopped_at = refl; retention = refl })
    | inr p ↦ rw p (record { phase = refl; stopped_at = refl; retention = refl })
  ]

  pure-Allowed : (w : W) (v : Verdict) → Fine w v → YieldsAt {W = W} (Fine w) (pure v) w
  pure-Allowed w v h = Yields-YieldsAt (Fine w) (pure v) (pure-Yields W (Fine w) v h) w

  -- A call whose result only says when to come back.
  then_finished :
      {B : Type 0} (m : Call W B) (f : B → Requeue) (w : W)
      → YieldsAt (Fine w) (m >>= λ b. pure (finished (f b))) w
  unfolding Allowed
  then_finished m f w =
      >>=-YieldsAt (Fine w) m (λ b. pure (finished (f b))) w
        (λ b w1 _.
          Yields-YieldsAt (Fine w) (pure (finished (f b)))
            (pure-Yields W (Fine w) (finished (f b)) tt) w1)

  failed-Allowed : (now : ℕ) (w : W) → YieldsAt (Fine w) (failed c now s) w
  unfolding failed Allowed
  failed-Allowed now w =
      let drop = unless_not_found (c.delete_sandbox (refused s)) in
      let v = write_status (refused s) (requeue_at now s.status.retention_deadline) in
      if-YieldsAt (Fine w) (expired s.status.retention_deadline now) (drop >> pure (finished done))
        (pure v) w (λ _. then_finished drop (λ _. done) w)
        (λ _. pure-Allowed w v (same_status w (refused s) refused-IsSame))

  not_failed : is_phase_failed s.status.phase ≡ false → ¬ (s.status.phase ≡ phase_failed)
  not_failed h p = cc (rw p at h)

  kept_or_reconciled-Allowed :
      (now : ℕ) (w : W) → now ≡ c.now w → YieldsAt (Fine w) (kept_or_reconciled c now s) w
  unfolding kept_or_reconciled Allowed
  kept_or_reconciled-Allowed now w time =
      let over = with_status (with_condition "TransitionValid" "False" "RetentionExpired") s in
      let late = is_phase_stopped s.status.phase && expired s.status.retention_deadline now in
      let stays = if late then pure (retire over) else defaulted c now s in
      if-YieldsAt (Fine w) (is_phase_failed s.status.phase) (failed c now s) stays w
        (λ _. failed-Allowed now w)
        (λ alive.
          if-YieldsAt (Fine w) late (pure (retire over)) (defaulted c now s) w
            (λ _.
              pure-Allowed w (retire over)
                (same_status w over (record { phase = refl; stopped_at = refl; retention = refl })))
            (λ _. defaulted-Allowed c now s w time keeps (not_failed alive)))

  decided-Allowed : (now : ℕ) (w : W) → now ≡ c.now w → YieldsAt (Fine w) (decided c now s) w
  unfolding decided
  decided-Allowed now w time =
      let gone = reconcile_delete c s in
      let add = call (c.update_sandbox (record s { has_finalizer = true })) in
      let next =
        if not s.has_finalizer
        then add >> pure (finished requeue)
        else kept_or_reconciled c now s in
      if-YieldsAt (Fine w) s.deleting (gone >>= λ r. pure (finished r)) next w
        (λ _. then_finished gone (λ r. r) w)
        (λ _.
          if-YieldsAt (Fine w) (not s.has_finalizer) (add >> pure (finished requeue))
            (kept_or_reconciled c now s) w (λ _. then_finished add (λ _. requeue) w)
            (λ _. kept_or_reconciled-Allowed now w time))

  decide-Change :
      (s' : DevSandbox) (r : Requeue) (w w' : W)
      → decide c s w ≡ (ok (write_status s' r), w')
      → Change (IsStarted c defaults w) (Halted w) s.status s'.status
  unfolding decide YieldsAt Allowed
  decide-Change s' r w w' h = decided-Allowed (c.now w) w refl (write_status s' r) w' h

  -- The phase that Reconcile leaves to be written is a step of the lifecycle from the phase that it
  -- read: kept, from none to pending, or, of a sandbox that has not failed, to creating, running,
  -- stopped or failed; provided updates of the object that are
  -- accepted give back the phase and times that were read.
  pub decide-Step :
      (s' : DevSandbox) (r : Requeue) (w w' : W)
      → decide c s w ≡ (ok (write_status s' r), w')
      → Step s.status.phase s'.status.phase
  decide-Step s' r w w' h = (decide-Change s' r w w' h).step

  -- When the status that was read has the times that its phase asks for, so has the status that
  -- Reconcile leaves to be written: a retention deadline when it failed, a stop time and a retention
  -- deadline when it is stopped, neither when it is creating or running; provided updates of the object that are
  -- accepted give back the phase and times that were read.
  pub decide-IsCoherent :
      (s' : DevSandbox) (r : Requeue) (w w' : W)
      → IsCoherent s.status
      → decide c s w ≡ (ok (write_status s' r), w')
      → IsCoherent s'.status
  decide-IsCoherent s' r w w' coherent h = (decide-Change s' r w w' h).coherent coherent

  -- A sandbox that Reconcile leaves to be written as running was running, or the pass, from the world
  -- and time at which it began, was for a sandbox that is to run, read its template and activity,
  -- ensured the quota, got nil for the reservation of one active sandbox with the storage of the
  -- profile, ensured the claim, the account and the activity lease, and applied the Sandbox that is
  -- rendered to run with these, owned by this sandbox, and found it ready; provided updates of the object that are
  -- accepted give back the phase and times that were read.
  pub decide-IsStarted :
      (s' : DevSandbox) (r : Requeue) (w w' : W)
      → decide c s w ≡ (ok (write_status s' r), w')
      → s'.status.phase ≡ phase_running
      → (s.status.phase ≡ phase_running)
        ⊎ IsStarted c (record s { spec = default_dev_sandbox s.spec }) w
  decide-IsStarted s' r w w' h p = (decide-Change s' r w w' h).started p

  -- A sandbox that Reconcile leaves to be written as stopped was stopped, or its specification stops
  -- it, or the pass, from the world at which it began, read its template, its activity lease and its
  -- jobs, and at the time at which it began these show a sandbox that is idle, counted from its last
  -- activity on record, else from its creation, else, with no creation time, from that time; provided
  -- updates of the object that are accepted give back the phase and times that were read.
  pub decide-IsIdlePass :
      (s' : DevSandbox) (r : Requeue) (w w' : W)
      → decide c s w ≡ (ok (write_status s' r), w')
      → s'.status.phase ≡ phase_stopped
      → (s.status.phase ≡ phase_stopped)
        ⊎ ((s.spec.desired_state ≡ desire_stopped)
            ⊎ IsIdlePass c (record s { spec = default_dev_sandbox s.spec }) w)
  decide-IsIdlePass s' r w w' h p = (decide-Change s' r w w' h).stopped p
