-- ===== src/ApiTypes.antt =====
-- api/v1alpha1/types.go: the objects that the components share, as far as their code reads them.
-- A Go string type with named values is a data type whose last constructors are the empty string
-- and every other one. Instants are nanoseconds.
use aksagent_sandbox.Base.{String, Bool}
use aksagent_sandbox.Base.Int.{ℤ}

pub data ProfileName : Type 0 where
  small medium large no_profile : ProfileName
  other_profile : String → ProfileName

pub data EntryAction : Type 0 where
  shell vscode copilot no_action : EntryAction
  other_action : String → EntryAction

pub data SourceType : Type 0 where
  git_source empty_source : SourceType
  other_source : String → SourceType

pub data DesiredState : Type 0 where
  desire_running desire_stopped no_desire : DesiredState
  other_desire : String → DesiredState

pub data Protocol : Type 0 where
  tcp udp no_protocol : Protocol
  other_protocol : String → Protocol

-- Status.Phase, with the constants of the operator.
pub data Phase : Type 0 where
  phase_pending phase_creating phase_running phase_stopped phase_failed phase_deleting : Phase
  no_phase : Phase

pub record ServicePort : Type 0 where
  pub name : String
  pub port : ℤ  -- int32
  pub protocol : Protocol

pub record SandboxOwner : Type 0 where
  pub github_user_id : String
  pub github_login : String

pub record SandboxSource : Type 0 where
  pub source_type : SourceType
  pub repository_id : String
  pub repository_url : String
  pub ref_name : String
  pub commit_sha : String
  pub lfs : Bool
  pub submodules : Bool
  pub author_name : String
  pub author_email : String
  pub primary_org : String
  pub read_only : Bool

pub record SandboxTemplateReference : Type 0 where
  pub name : String
  pub version : String
  pub image_digest : String

pub record SandboxProfile : Type 0 where
  pub name : ProfileName
  pub cpu : String
  pub memory : String
  pub storage : String

pub record SandboxLifecycle : Type 0 where
  pub idle_timeout_seconds : ℤ  -- int32
  pub stopped_retention_seconds : ℤ  -- int32
  pub failed_retention_seconds : ℤ  -- int32

pub record DevSandboxSpec : Type 0 where
  pub owner : SandboxOwner
  pub source : SandboxSource
  pub template : SandboxTemplateReference
  pub profile : SandboxProfile
  pub lifecycle : SandboxLifecycle
  pub desired_state : DesiredState
