-- ===== src/Lifecycle/Validation/Samples.antt =====
-- Formats and a specification for tests of internal/lifecycle and internal/operator.
use aksagent_sandbox.Base.{String, false, Option, none, some, ◌==◌, if◌then◌else◌, ◌||◌}
use aksagent_sandbox.Base.Int.{ℤ, pos}
use aksagent_sandbox.ApiTypes.{
  small, empty_source, no_desire, SandboxSource, SandboxProfile, DevSandboxSpec,
}
use aksagent_sandbox.Lifecycle.Secrets.{scalar}
use aksagent_sandbox.Lifecycle.Validation.{Formats}

abbrev pub quantity : String → Option ℤ
quantity a =
    if a == "2" || a == "2000m"
    then some (pos 2)
    else if a == "4Gi"
    then some (pos 4294967296)
    else if a == "20Gi"
    then some (pos 21474836480)
    else none

abbrev pub formats : Formats
formats = record { parse_quantity = quantity; parse_url = λ _. none; spec_json = λ _. scalar }

abbrev pub source : SandboxSource
source = record {
  source_type = empty_source;
  repository_id = "";
  repository_url = "";
  ref_name = "";
  commit_sha = "";
  lfs = false;
  submodules = false;
  author_name = "";
  author_email = "";
  primary_org = "";
  read_only = false;
}

abbrev pub blank_profile : SandboxProfile
blank_profile = record { name = small; cpu = ""; memory = ""; storage = "" }

abbrev pub small_profile : SandboxProfile
small_profile = record { name = small; cpu = "2"; memory = "4Gi"; storage = "20Gi" }

abbrev pub spec : DevSandboxSpec
spec = record {
  owner = record { github_user_id = "42"; github_login = "octo" };
  source = source;
  template = record {
    name = "base";
    version = "1.0.0";
    image_digest = "sha256:0123456789abcdef0123456789abcdef0123456789abcdef0123456789ABCDEF";
  };
  profile = blank_profile;
  lifecycle = record {
    idle_timeout_seconds = pos 0;
    stopped_retention_seconds = pos 0;
    failed_retention_seconds = pos 0;
  };
  desired_state = no_desire;
}
