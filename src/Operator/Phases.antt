-- ===== src/Operator/Phases.antt =====
-- The lifecycle of a sandbox as a machine of its phases, apart from the code that drives it.
use aksagent_sandbox.Base.{ℕ, ◌≡◌, refl, Option, none, some}
use aksagent_sandbox.ApiTypes.{
  Phase, phase_pending, phase_creating, phase_running, phase_stopped, phase_failed, phase_deleting,
  no_phase,
}
use aksagent_sandbox.Operator.Objects.{DevSandboxStatus}

-- A phase is kept, or a new sandbox waits, or a sandbox that has not failed moves.
pub data Step : Phase → Phase → Type 0 where
  keep : (p : Phase) → Step p p
  wait : Step no_phase phase_pending
  create : (p : Phase) → ¬ (p ≡ phase_failed) → Step p phase_creating
  start : (p : Phase) → ¬ (p ≡ phase_failed) → Step p phase_running
  stop : (p : Phase) → ¬ (p ≡ phase_failed) → Step p phase_stopped
  fall : (p : Phase) → ¬ (p ≡ phase_failed) → Step p phase_failed

pub data Steps : Phase → Phase → Type 0 where
  here : (p : Phase) → Steps p p
  then_step : (p q r : Phase) → Step p q → Steps q r → Steps p r

-- Failed is final.
pub failed-Step : (p q : Phase) → Step p q → p ≡ phase_failed → q ≡ phase_failed
failed-Step p q (keep _) e = e
failed-Step p q wait e = cc
failed-Step p q (create _ n) e = absurd (n e)
failed-Step p q (start _ n) e = absurd (n e)
failed-Step p q (stop _ n) e = absurd (n e)
failed-Step p q (fall _ n) e = refl

pub failed-Steps : (p q : Phase) → Steps p q → p ≡ phase_failed → q ≡ phase_failed
failed-Steps p q (here _) e = e
failed-Steps p q (then_step _ m _ s rest) e = failed-Steps m q rest (failed-Step p m s e)

abbrev pub IsPresent : Option ℕ → Type 0
IsPresent o = (t : ℕ) × (o ≡ some t)

-- The times that a phase asks for: a deadline when the sandbox is kept for a while, none while it is
-- in use.
unfoldable pub IsTimed : Phase → Option ℕ → Option ℕ → Type 0
IsTimed phase_failed stopped_at retention = IsPresent retention
IsTimed phase_stopped stopped_at retention = IsPresent stopped_at × IsPresent retention
IsTimed phase_running stopped_at retention = (stopped_at ≡ none) × (retention ≡ none)
IsTimed phase_creating stopped_at retention = (stopped_at ≡ none) × (retention ≡ none)
IsTimed phase_pending stopped_at retention = Unit
IsTimed phase_deleting stopped_at retention = Unit
IsTimed no_phase stopped_at retention = Unit

unfoldable pub IsCoherent : DevSandboxStatus → Type 0
unfolding IsTimed
IsCoherent st = IsTimed st.phase st.stopped_at st.retention_deadline
