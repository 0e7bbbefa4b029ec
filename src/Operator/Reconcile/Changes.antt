-- ===== src/Operator/Reconcile/Changes.antt =====
-- internal/operator/reconciler.go: the status that Reconcile writes is one that the lifecycle allows.
use aksagent_sandbox.Base.{
  true, arith, ℕ, ◌≡◌, refl, ◌⊎◌, inl, inr, String, not, ◌&&◌, ◌||◌, Option, none, some, List, [],
  ◌∷◌, ◌==◌, Result, ok, err,
}
use aksagent_sandbox.ApiTypes.{phase_failed, desire_running, desire_stopped}
use aksagent_sandbox.Lifecycle.Activity.{
  ActivityResult, ActivityLease, JobSummary, evaluate_activity,
}
use aksagent_sandbox.Lifecycle.Activity.Idle.{should_idle_stop-iff-IsIdle}
use aksagent_sandbox.Lifecycle.Secrets.{Fields}
use aksagent_sandbox.Lifecycle.Validation.{Problem, default_dev_sandbox, validate_dev_sandbox}
use aksagent_sandbox.Lifecycle.Validation.Ranges.{validate_dev_sandbox-IsValidSpec}
use aksagent_sandbox.Operator.Objects.{DevSandboxStatus, DevSandbox, Template}
use aksagent_sandbox.Operator.Cluster.{
  ApiError, api_error, not_found, already_exists, conflict, api_fault, OperatorError, Cluster,
  YieldsAt, Yields-YieldsAt, raise-Yields, raise, if-YieldsAt, >>=-YieldsAt, ◌>>=◌, attempt,
  attempt-ok, call, call-ok,
}
use aksagent_sandbox.Operator.Status.{is_desire_running, is_phase_running, idle_timeout}
use aksagent_sandbox.Operator.Ensure.{get_activity_lease, sandbox_jobs}
use aksagent_sandbox.Operator.Render.{blueprint_spec, has_claim_templates}
use aksagent_sandbox.Operator.Verdict.{Verdict, finished, write_status, retire, fail, desired}
use aksagent_sandbox.Operator.Resolve.{resolved}
use aksagent_sandbox.Operator.Resolve.Changes.{IsSame, Change, Allowed, fail-Allowed}
use aksagent_sandbox.Operator.Resolve.Starts.{KeepsLifecycle, IsGranted, resolved-Allowed}
use aksagent_sandbox.Operator.Reconcile.Idle.{
  baseline-IsSince, IsIdleAfter, IsIdlePass, IsStartedAfter, IsStarted, desire_of,
  default_desire-stopped,
}
use aksagent_sandbox.Operator.Reconcile.{
  baseline, stopped_if_idle, observed, with_blueprint, template_read, validated, defaulted,
}

lift-Change :
    {A B X Y : Type 0} {st st' : DevSandboxStatus}
    → (A → B)
    → (X → Y)
    → Change A X st st'
    → Change B Y st st'
lift-Change f g h = record {
  step = h.step;
  coherent = h.coherent;
  started = λ e. elim (h.started e) [ inl same ↦ inl same | inr x ↦ inr (f x) ];
  stopped = λ e. elim (h.stopped e) [ inl same ↦ inl same | inr x ↦ inr (g x) ];
}

module _ {W : Type 0} (c : Cluster W) (now : ℕ) where
  module _ (s : DevSandbox) (keeps : KeepsLifecycle c s.status)
      (alive : ¬ (s.status.phase ≡ phase_failed))
      (known : (s.spec.desired_state ≡ desire_running) ⊎ (s.spec.desired_state ≡ desire_stopped))
      (Started Idle : Type 0) where
    abbrev Halted : Type 0
    Halted = (s.spec.desired_state ≡ desire_stopped) ⊎ Idle

    abbrev Fine : Verdict → Type 0
    Fine = Allowed Started Halted s.status

    raising : (x : OperatorError) (w : W) → YieldsAt {W = W} Fine (raise x) w
    raising x w = Yields-YieldsAt Fine (raise x) (raise-Yields W Fine x) w

    failing : (reason : String) (w : W) → YieldsAt Fine (fail c reason now s) w
    failing reason w =
        Yields-YieldsAt Fine (fail c reason now s)
          (fail-Allowed c Started Halted s.status alive reason now s) w

    stopped_if_idle-Allowed :
        (t : Template) (a : ActivityResult) (w : W)
        → (a.should_idle_stop ≡ true → Idle)
        → (s.spec.desired_state ≡ desire_running → IsGranted c now s t a w → Started)
        → YieldsAt Fine (stopped_if_idle c now s t a) w
    unfolding stopped_if_idle KeepsLifecycle
    stopped_if_idle-Allowed t a w why quota =
        let unchanged : IsSame s.status s.status = record {
          phase = refl;
          stopped_at = refl;
          retention = refl;
        } in
        let next = desired desire_stopped s in
        let update = call (c.update_sandbox next) in
        let stop = λ (stored : DevSandbox). resolved c now stored t a desire_stopped in
        if-YieldsAt Fine
          (is_desire_running s.spec.desired_state
            && is_phase_running s.status.phase
            && a.should_idle_stop)
          (update >>= stop) (resolved c now s t a s.spec.desired_state) w
          (λ idle. >>=-YieldsAt Fine update stop w (λ stored w1 h.
            resolved-Allowed c s.status keeps alive now a desire_stopped (inr refl) stored
              (keeps next stored w w1 unchanged (call-ok (c.update_sandbox next) w stored w1 h)) t
              Started Halted (λ _. inr (why (ground arith))) w1 (λ other _. cc)))
          (λ _.
            resolved-Allowed c s.status keeps alive now a s.spec.desired_state known s unchanged t
              Started Halted (λ h. inl (desire_of s.spec.desired_state h)) w quota)

    observed-Allowed :
        (t : Template) (w : W)
        → (IsIdleAfter c now s w → Idle)
        → (s.spec.desired_state ≡ desire_running → IsStartedAfter c now s t w → Started)
        → YieldsAt Fine (observed c now s t) w
    unfolding observed
    observed-Allowed t w why quota =
        let since = baseline now s.creation_time s.status.last_activity_time in
        let counted = baseline-IsSince now s.creation_time s.status.last_activity_time in
        let go = λ (lease : Option ActivityLease) (jobs : List JobSummary).
          stopped_if_idle c now s t (evaluate_activity now since (idle_timeout s) lease jobs) in
        >>=-YieldsAt Fine (get_activity_lease c s) (λ lease. sandbox_jobs c s >>= go lease) w
          (λ lease w1 h. >>=-YieldsAt Fine (sandbox_jobs c s) (go lease) w1 (λ jobs w2 k.
            stopped_if_idle-Allowed t (evaluate_activity now since (idle_timeout s) lease jobs) w2
              (λ idle. why (
                lease,
                w1,
                h,
                (
                  jobs,
                  w2,
                  k,
                  (
                    since,
                    counted,
                    (should_idle_stop-iff-IsIdle now since (idle_timeout s) lease jobs).0 idle,
                  ),
                ),
              ))
              (λ run granted. quota run (lease, w1, h, (jobs, w2, k, (since, counted, granted))))))

    with_blueprint-Allowed :
        (t : Template) (spec : Option Fields) (w : W)
        → (IsIdleAfter c now s w → Idle)
        → (s.spec.desired_state ≡ desire_running → IsStartedAfter c now s t w → Started)
        → YieldsAt Fine (with_blueprint c now s t spec) w
    unfolding with_blueprint
    with_blueprint-Allowed t none w why quota = failing "InvalidTemplate" w
    with_blueprint-Allowed t (some spec) w why quota =
        if-YieldsAt Fine (has_claim_templates spec) (fail c "InvalidTemplate" now s)
          (observed c now s t) w (λ _. failing "InvalidTemplate" w)
          (λ _. observed-Allowed t w why quota)

    template_read-Allowed :
        (r : Result ApiError Template) (w : W)
        → ((t : Template) → r ≡ ok t → IsIdleAfter c now s w → Idle)
        → ((t : Template)
            → r ≡ ok t
            → s.spec.desired_state ≡ desire_running
            → IsStartedAfter c now s t w
            → Started)
        → YieldsAt Fine (template_read c now s r) w
    unfolding template_read
    template_read-Allowed (ok t) w why quota =
        if-YieldsAt Fine
          (not (t.version == s.spec.template.version)
            || not (t.image_digest == s.spec.template.image_digest))
          (fail c "TemplateMismatch" now s) (with_blueprint c now s t (blueprint_spec t)) w
          (λ _. failing "TemplateMismatch" w)
          (λ _. with_blueprint-Allowed t (blueprint_spec t) w (why t refl) (quota t refl))
    template_read-Allowed (err not_found) w why quota = failing "TemplateNotFound" w
    template_read-Allowed (err already_exists) w why quota = raising (api_error already_exists) w
    template_read-Allowed (err conflict) w why quota = raising (api_error conflict) w
    template_read-Allowed (err (api_fault n)) w why quota = raising (api_error (api_fault n)) w

  call_of :
      {A : Type 0} (m : W → Result ApiError A × W) (w : W) (a : A) (w1 : W)
      → m w ≡ (ok a, w1)
      → call m w ≡ (ok a, w1)
  call_of m w a w1 h = rw h refl

  validated-Allowed :
      (s : DevSandbox) (ps : List Problem) (w : W)
      → now ≡ c.now w
      → KeepsLifecycle c s.status
      → ¬ (s.status.phase ≡ phase_failed)
      → validate_dev_sandbox c.formats s.spec ≡ ps
      → YieldsAt
          (Allowed
            (IsStarted c s w)
            ((s.spec.desired_state ≡ desire_stopped) ⊎ IsIdlePass c s w)
            s.status)
          (validated c now s ps)
          w
  unfolding validated
  validated-Allowed s [] w time keeps alive h =
      let known = (validate_dev_sandbox-IsValidSpec c.formats s.spec h).desire in
      let get = c.get_template s.spec.template.name in
      >>=-YieldsAt _ (attempt get) (template_read c now s) w (λ r w1 k.
        template_read-Allowed s keeps alive known (IsStarted c s w) (IsIdlePass c s w) r w1
          (λ t p idle.
            (t, w1, call_of get w t w1 (rw p at (attempt-ok get w r w1 k)), (rw time at idle)))
          (λ t p run rest. (
            run,
            (t, w1, call_of get w t w1 (rw p at (attempt-ok get w r w1 k)), (rw time at rest)),
          )))
  validated-Allowed s (p ∷ ps) w time keeps alive h =
      Yields-YieldsAt _ (fail c "InvalidSpec" now s)
        (fail-Allowed c _ _ s.status alive "InvalidSpec" now s) w

  lifted :
      (A B X Y : Type 0) (st : DevSandboxStatus)
      → (A → B)
      → (X → Y)
      → (v : Verdict) → Allowed A X st v
      → Allowed B Y st v
  unfolding Allowed
  lifted A B X Y st f g (finished r) h = tt
  lifted A B X Y st f g (write_status s r) h = lift-Change f g h
  lifted A B X Y st f g (retire s) h = lift-Change f g h

  -- A sandbox that is stopped by its defaults was stopped by its specification.
  stopped-default_dev_sandbox :
      (s : DevSandbox) (Idle : Type 0)
      → ((default_dev_sandbox s.spec).desired_state ≡ desire_stopped) ⊎ Idle
      → (s.spec.desired_state ≡ desire_stopped) ⊎ Idle
  unfolding default_dev_sandbox
  stopped-default_dev_sandbox s Idle (inl p) = inl (default_desire-stopped s.spec.desired_state p)
  stopped-default_dev_sandbox s Idle (inr p) = inr p

  pub defaulted-Allowed :
      (s : DevSandbox) (w : W)
      → now ≡ c.now w
      → KeepsLifecycle c s.status
      → ¬ (s.status.phase ≡ phase_failed)
      → let d = record s { spec = default_dev_sandbox s.spec } in
        YieldsAt
          (Allowed
            (IsStarted c d w)
            ((s.spec.desired_state ≡ desire_stopped) ⊎ IsIdlePass c d w)
            s.status)
          (defaulted c now s)
          w
  unfolding defaulted YieldsAt
  defaulted-Allowed s w time keeps alive v w' h =
      let d = record s { spec = default_dev_sandbox s.spec } in
      lifted (IsStarted c d w) (IsStarted c d w)
        ((d.spec.desired_state ≡ desire_stopped) ⊎ IsIdlePass c d w) _ s.status (λ x. x)
        (stopped-default_dev_sandbox s (IsIdlePass c d w)) v
        (validated-Allowed d (validate_dev_sandbox c.formats d.spec) w time keeps alive refl v w' h)
