-- ===== src/Lifecycle/Validation/Ranges.antt =====
-- internal/lifecycle/validation.go: what a valid specification has.
use aksagent_sandbox.Base.{
  ◌≡◌, ◌≢◌, refl, sym, ◌⊎◌, inl, inr, String, Bool, true, false, not, ◌||◌, Option, none, some,
  List, [], ◌==◌, eq_iff, arith, Bool-cases, concat-nil,
}
use aksagent_sandbox.Base.Int.{ℤ, pos, ◌≤ℤ◌, ltb_ℤ}
use aksagent_sandbox.Base.Bytes.{codes}
use aksagent_sandbox.Base.Text.{is_digest}
use aksagent_sandbox.ApiTypes.{
  DesiredState, desire_running, desire_stopped, no_desire, other_desire, DevSandboxSpec,
  SandboxTemplateReference,
}
use aksagent_sandbox.Lifecycle.Secrets.{Step}
use aksagent_sandbox.Lifecycle.Secrets.Keys.{IsClean, secret_like_field_iff}
use aksagent_sandbox.Lifecycle.Validation.{
  Formats, Problem, listed, problem_if, is_known_desire, secret_problem, validate_source, checks,
  validate_dev_sandbox, same_template, same_profile, validate_update,
}
use aksagent_sandbox.Lifecycle.Validation.Profiles.{IsCanonical, validate_profile_iff}

problem_if_nil : (f : Formats) (b : Bool) (p : Problem) → problem_if f b p ≡ [] → b ≡ false
problem_if_nil f true p h = cc
problem_if_nil f false p h = refl

listed_nil : (f : Formats) (o : Option Problem) → listed f o ≡ [] → o ≡ none
listed_nil f none h = refl
listed_nil f (some p) h = cc

secret_problem_nil : (f : Formats) (o : Option (List Step)) → secret_problem f o ≡ [] → o ≡ none
unfolding secret_problem
secret_problem_nil f none h = refl
secret_problem_nil f (some p) h = cc

eq_false : (a : String) → (a == "") ≡ false → a ≢ ""
eq_false a h e = ground (arith, eq_iff a "")

neither : (a b : Bool) → a || b ≡ false → (a ≡ false) × (b ≡ false)
neither true b h = cc
neither false b h = (refl, h)

at_least : (a b : ℤ) → ltb_ℤ a b ≡ false → b ≤ℤ a
at_least a b h = ground arith

holds : (b : Bool) → not b ≡ false → b ≡ true
holds true h = refl
holds false h = cc

known_desire :
    (f : Formats) (d : DesiredState)
    → is_known_desire f d ≡ true
    → (d ≡ desire_running) ⊎ (d ≡ desire_stopped)
unfolding is_known_desire
known_desire f desire_running h = inl refl
known_desire f desire_stopped h = inr refl
known_desire f no_desire h = cc
known_desire f (other_desire s) h = cc

module _ (f : Formats) where
  pub record IsValidSpec (spec : DevSandboxSpec) : Type 0 where
    pub has_owner : (spec.owner.github_user_id ≢ "") × (spec.owner.github_login ≢ "")
    pub valid_source : validate_source f spec.source ≡ none
    pub has_template : (spec.template.name ≢ "") × (spec.template.version ≢ "")
    pub pinned : is_digest (codes spec.template.image_digest) ≡ true
    pub canonical : IsCanonical f spec.profile
    pub idle_range :
        (pos 1 ≤ℤ spec.lifecycle.idle_timeout_seconds)
        × (spec.lifecycle.idle_timeout_seconds ≤ℤ pos 7200)
    pub retention_range :
        (pos 0 ≤ℤ spec.lifecycle.stopped_retention_seconds)
        × (pos 0 ≤ℤ spec.lifecycle.failed_retention_seconds)
    pub desire : (spec.desired_state ≡ desire_running) ⊎ (spec.desired_state ≡ desire_stopped)
    pub clean : IsClean (f.spec_json spec)

  -- A specification that passes the validation has an owner, a valid source, a template with a pinned
  -- digest, a canonical profile, an idle timeout of 1 to 7200 seconds, retention times that are not
  -- negative, one of the two desired states, and no secret-like key in its JSON.
  pub validate_dev_sandbox-IsValidSpec :
      (spec : DevSandboxSpec) → validate_dev_sandbox f spec ≡ [] → IsValidSpec spec
  unfolding validate_dev_sandbox checks
  validate_dev_sandbox-IsValidSpec spec h =
      let (
        user,
        (
          login,
          (source, (named, (digest, (profile, (idle, (retention, (desire, (secret, done)))))))),
        ),
      ) =
        concat-nil (checks f spec) h in
      let idle_seconds = spec.lifecycle.idle_timeout_seconds in
      let reference = neither _ _ (problem_if_nil f _ _ named) in
      let timeout = neither _ _ (problem_if_nil f _ _ idle) in
      let kept = neither _ _ (problem_if_nil f _ _ retention) in
      record {
        has_owner = (
          eq_false spec.owner.github_user_id (problem_if_nil f _ _ user),
          eq_false spec.owner.github_login (problem_if_nil f _ _ login),
        );
        valid_source = listed_nil f _ source;
        has_template =
            (eq_false spec.template.name reference.0, eq_false spec.template.version reference.1);
        pinned = holds _ (problem_if_nil f _ _ digest);
        canonical = (validate_profile_iff f spec.profile).0 (listed_nil f _ profile);
        idle_range =
            (at_least idle_seconds (pos 1) timeout.0, at_least (pos 7200) idle_seconds timeout.1);
        retention_range = (
          at_least spec.lifecycle.stopped_retention_seconds (pos 0) kept.0,
          at_least spec.lifecycle.failed_retention_seconds (pos 0) kept.1,
        );
        desire = known_desire f spec.desired_state (holds _ (problem_if_nil f _ _ desire));
        clean = (secret_like_field_iff (f.spec_json spec)).0 (secret_problem_nil f _ secret);
      }

  same_template_eq :
      (a b : SandboxTemplateReference)
      → same_template a b ≡ true
      → (a.name ≡ b.name) × (a.version ≡ b.version) × (a.image_digest ≡ b.image_digest)
  unfolding same_template
  same_template_eq a b h = ground (
    arith,
    eq_iff a.name b.name,
    eq_iff a.version b.version,
    eq_iff a.image_digest b.image_digest,
  )

  -- An update that is accepted keeps the template reference, with its pinned digest, and is valid by
  -- itself.
  pub validate_update-keeps :
      (old new : DevSandboxSpec)
      → validate_update f old new ≡ []
      → (new.template.name ≡ old.template.name)
        × (new.template.version ≡ old.template.version)
        × (new.template.image_digest ≡ old.template.image_digest)
        × IsValidSpec new
  unfolding validate_update
  validate_update-keeps old new h = elim (Bool-cases (same_template old.template new.template)) [
    | inr b ↦ cc (rw b at h)
    | inl b ↦ elim (Bool-cases (same_profile old.profile new.profile)) [
      | inr c ↦ cc (rw (b, c) at h)
      | inl c ↦
          let (x, y, z) = same_template_eq old.template new.template b in
          (sym x, sym y, sym z, validate_dev_sandbox-IsValidSpec new (rw (b, c) at h))
    ]
  ]
