-- ===== src/Lifecycle/Validation.antt =====
-- internal/lifecycle/validation.go: defaults and validation of a DevSandbox. The quantities of
-- Kubernetes, Go's URLs and the JSON of a spec are parameters (`Formats`); a problem is a value,
-- where the code has its text.
pub mod Profiles
pub mod Ranges
pub mod Samples
mod Examples
use aksagent_sandbox.Base.{
  ℕ, String, Bool, true, false, not, ◌&&◌, ◌||◌, Option, none, some, List, [], ◌∷◌, ◌++◌, ◌==◌, ltb,
  if◌then◌else◌, first, concat,
}
use aksagent_sandbox.Base.Int.{ℤ, pos, ltb_ℤ, eqb_ℤ}
use aksagent_sandbox.Base.Bytes.{codes}
use aksagent_sandbox.Base.Text.{byte_length, is_hex_of, is_digest, contains_any}
use aksagent_sandbox.ApiTypes.{
  ProfileName, small, medium, large, no_profile, other_profile, SourceType, git_source,
  empty_source, other_source, DesiredState, desire_running, desire_stopped, no_desire, other_desire,
  SandboxOwner, SandboxSource, SandboxTemplateReference, SandboxProfile, SandboxLifecycle,
  DevSandboxSpec,
}
use aksagent_sandbox.Lifecycle.Secrets.{Json, secret_like_field, Step}

-- What net/url gives of a text.
pub record Url : Type 0 where
  pub scheme : String
  pub host : String
  pub has_user : Bool

pub record Formats : Type 0 where
  -- resource.ParseQuantity, as the value that `Cmp` compares
  pub parse_quantity : String → Option ℤ
  pub parse_url : String → Option Url
  pub spec_json : DevSandboxSpec → Json

pub data Problem : Type 0 where
  unsupported_profile : Problem
  invalid_quantity : String → Problem
  profile_mismatch : ProfileName → Problem
  empty_source_fields git_fields_missing url_not_https url_credentials : Problem
  commit_invalid identity_invalid source_type_invalid : Problem
  user_id_missing login_missing template_missing digest_invalid : Problem
  idle_timeout_range retention_negative desired_state_invalid : Problem
  secret_like : List Step → Problem
  template_immutable profile_immutable : Problem

-- CanonicalProfile
unfoldable pub canonical_profile : ProfileName → Option SandboxProfile
canonical_profile small =
    some (record { name = small; cpu = "2"; memory = "4Gi"; storage = "20Gi" })
canonical_profile medium =
    some (record { name = medium; cpu = "4"; memory = "8Gi"; storage = "40Gi" })
canonical_profile large =
    some (record { name = large; cpu = "8"; memory = "16Gi"; storage = "80Gi" })
canonical_profile no_profile = none
canonical_profile (other_profile _) = none

or_text : String → String → String
or_text value default = if value == "" then default else value

with_canonical : SandboxProfile → Option SandboxProfile → SandboxProfile
unfolding or_text
with_canonical p none = p
with_canonical p (some c) = record p {
  cpu = or_text p.cpu c.cpu;
  memory = or_text p.memory c.memory;
  storage = or_text p.storage c.storage;
}

-- ApplyProfileDefaults, whose error the caller ignores.
unfoldable pub apply_profile_defaults : SandboxProfile → SandboxProfile
unfolding with_canonical canonical_profile
apply_profile_defaults p = with_canonical p (canonical_profile p.name)

or_seconds : ℤ → ℤ → ℤ
or_seconds value default = if eqb_ℤ value (pos 0) then default else value

unfoldable pub default_desire : DesiredState → DesiredState
default_desire no_desire = desire_running
default_desire d = d

abbrev pub default_failed_retention_seconds : ℤ
default_failed_retention_seconds = pos 86400

-- DefaultDevSandbox
unfoldable pub default_dev_sandbox : DevSandboxSpec → DevSandboxSpec
unfolding apply_profile_defaults or_seconds default_desire
default_dev_sandbox spec = record spec {
  desired_state = default_desire spec.desired_state;
  lifecycle = record {
    idle_timeout_seconds = or_seconds spec.lifecycle.idle_timeout_seconds (pos 7200);
    stopped_retention_seconds = or_seconds spec.lifecycle.stopped_retention_seconds (pos 604800);
    failed_retention_seconds =
        or_seconds spec.lifecycle.failed_retention_seconds default_failed_retention_seconds;
  };
  profile = apply_profile_defaults spec.profile;
}

-- invalidSourceText
pub invalid_source_text : String → ℕ → Bool
unfolding byte_length contains_any
invalid_source_text value limit =
    ltb limit (byte_length (codes value)) || contains_any (codes value) (13 ∷ 10 ∷ 0 ∷ [])

same_name : ProfileName → ProfileName → Bool
same_name small small = true
same_name medium medium = true
same_name large large = true
same_name no_profile no_profile = true
same_name (other_profile a) (other_profile b) = a == b
same_name _ _ = false

-- reflect.DeepEqual on the two parts that an update may not change.
pub same_template : SandboxTemplateReference → SandboxTemplateReference → Bool
same_template a b = a.name == b.name && (a.version == b.version && a.image_digest == b.image_digest)

pub same_profile : SandboxProfile → SandboxProfile → Bool
unfolding same_name
same_profile a b =
    same_name a.name b.name && (a.cpu == b.cpu && (a.memory == b.memory && a.storage == b.storage))

module _ (f : Formats) where
  -- One resource of a profile against the canonical one, whose text always parses (`MustParse`).
  same_quantity : ProfileName → String → Option ℤ → Option ℤ → Option Problem
  same_quantity name value none _ = some (invalid_quantity value)
  same_quantity name value (some q) none = some (invalid_quantity value)
  same_quantity name value (some q) (some e) =
      if eqb_ℤ q e then none else some (profile_mismatch name)

  compare_all : ProfileName → List (String × String) → Option Problem
  unfolding same_quantity first
  compare_all name [] = none
  compare_all name ((value, expected) ∷ rest) =
      first (same_quantity name value (f.parse_quantity value) (f.parse_quantity expected))
        (compare_all name rest)

  against : SandboxProfile → Option SandboxProfile → Option Problem
  unfolding compare_all
  against p none = some unsupported_profile
  against p (some c) =
      compare_all p.name ((p.cpu, c.cpu) ∷ (p.memory, c.memory) ∷ (p.storage, c.storage) ∷ [])

  -- ValidateProfile
  pub validate_profile : SandboxProfile → Option Problem
  unfolding against canonical_profile
  validate_profile p = against p (canonical_profile p.name)

  pub empty_source_problem : SandboxSource → Option Problem
  empty_source_problem s =
      if not (s.repository_id == "")
        || not (s.repository_url == "")
        || not (s.ref_name == "")
        || not (s.commit_sha == "")
        || s.lfs
        || s.submodules
        || not (s.author_name == "")
        || not (s.author_email == "")
        || not (s.primary_org == "")
        || s.read_only
      then some empty_source_fields
      else none

  after_url : SandboxSource → Option Url → Option Problem
  unfolding is_hex_of invalid_source_text
  after_url s none = some url_not_https
  after_url s (some u) =
      if not (u.scheme == "https") || u.host == ""
      then some url_not_https
      else if u.has_user
      then some url_credentials
      else if not (is_hex_of 40 (codes s.commit_sha))
      then some commit_invalid
      else if invalid_source_text s.author_name 256
          || invalid_source_text s.author_email 320
          || invalid_source_text s.primary_org 100
      then some identity_invalid
      else none

  source_problem : SandboxSource → SourceType → Option Problem
  unfolding after_url empty_source_problem
  source_problem s empty_source = empty_source_problem s
  source_problem s git_source =
      if s.repository_id == "" || s.repository_url == ""
      then some git_fields_missing
      else after_url s (f.parse_url s.repository_url)
  source_problem s (other_source _) = some source_type_invalid

  -- validateSource
  pub validate_source : SandboxSource → Option Problem
  unfolding source_problem
  validate_source s = source_problem s s.source_type

  abbrev pub listed : Option Problem → List Problem
  listed none = []
  listed (some p) = p ∷ []

  abbrev pub problem_if : Bool → Problem → List Problem
  problem_if b p = if b then p ∷ [] else []

  pub is_known_desire : DesiredState → Bool
  is_known_desire desire_running = true
  is_known_desire desire_stopped = true
  is_known_desire no_desire = false
  is_known_desire (other_desire _) = false

  secret_problem : Option (List Step) → List Problem
  secret_problem none = []
  secret_problem (some path) = secret_like path ∷ []

  -- The checks of ValidateDevSandbox, in the order of the code, each with its problem if any.
  checks : DevSandboxSpec → List (List Problem)
  unfolding validate_source validate_profile is_digest is_known_desire secret_problem
      secret_like_field
  checks spec =
      problem_if (spec.owner.github_user_id == "") user_id_missing
      ∷ problem_if (spec.owner.github_login == "") login_missing
      ∷ listed (validate_source spec.source)
      ∷ problem_if (spec.template.name == "" || spec.template.version == "") template_missing
      ∷ problem_if (not (is_digest (codes spec.template.image_digest))) digest_invalid
      ∷ listed (validate_profile spec.profile)
      ∷ problem_if
          (ltb_ℤ spec.lifecycle.idle_timeout_seconds (pos 1)
            || ltb_ℤ (pos 7200) spec.lifecycle.idle_timeout_seconds)
          idle_timeout_range
      ∷ problem_if
          (ltb_ℤ spec.lifecycle.stopped_retention_seconds (pos 0)
            || ltb_ℤ spec.lifecycle.failed_retention_seconds (pos 0))
          retention_negative
      ∷ problem_if (not (is_known_desire spec.desired_state)) desired_state_invalid
      ∷ secret_problem (secret_like_field (f.spec_json spec))
      ∷ []

  -- ValidateDevSandbox: the problems; none of them is success.
  unfoldable pub validate_dev_sandbox : DevSandboxSpec → List Problem
  unfolding checks concat
  validate_dev_sandbox spec = concat (checks spec)

  -- ValidateDevSandboxUpdate
  pub validate_update : DevSandboxSpec → DevSandboxSpec → List Problem
  unfolding same_template same_profile validate_dev_sandbox
  validate_update old new =
      if not (same_template old.template new.template)
      then template_immutable ∷ []
      else if not (same_profile old.profile new.profile)
      then profile_immutable ∷ []
      else validate_dev_sandbox new
