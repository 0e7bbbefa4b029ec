-- ===== src/Lifecycle/Validation/Examples.antt =====
-- An empty sandbox with defaults: it is valid, and so is an update that stops it.
use aksagent_sandbox.Base.{◌≡◌, refl, []}
use aksagent_sandbox.Lifecycle.Validation.{default_dev_sandbox, validate_dev_sandbox}
use aksagent_sandbox.Lifecycle.Validation.Samples.{formats, spec}
use aksagent_sandbox.Lifecycle.Validation.Ranges.{IsValidSpec, validate_dev_sandbox-IsValidSpec}

defaulted_valid : validate_dev_sandbox formats (default_dev_sandbox spec) ≡ []
unfolding validate_dev_sandbox default_dev_sandbox
defaulted_valid = refl

validate_dev_sandbox-IsValidSpec_example : IsValidSpec formats (default_dev_sandbox spec)
validate_dev_sandbox-IsValidSpec_example =
    validate_dev_sandbox-IsValidSpec formats (default_dev_sandbox spec) defaulted_valid
