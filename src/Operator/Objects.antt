-- ===== src/Operator/Objects.antt =====
-- The objects that internal/operator reads and writes, with the fields that it uses. A zero time is
-- 0; labels are listed in the order of their keys; conditions are a map from their type, which the
-- code keeps sorted, without messages and times.
use aksagent_sandbox.Base.{ℕ, String, Bool, Option, List}
use aksagent_sandbox.Base.Int.{ℤ}
use aksagent_sandbox.Base.Bytes.{Bytes}
use aksagent_sandbox.ApiTypes.{Phase, DevSandboxSpec, ServicePort}
use aksagent_sandbox.Lifecycle.Activity.{JobSummary}
use aksagent_sandbox.Lifecycle.Secrets.{Fields}

pub record Condition : Type 0 where
  pub status : String
  pub reason : String

pub record DevSandboxStatus : Type 0 where
  pub phase : Phase
  pub upstream_sandbox_name : Bytes
  pub last_activity_time : Option ℕ
  pub idle_deadline : Option ℕ
  pub stopped_at : Option ℕ
  pub retention_deadline : Option ℕ
  pub conditions : List (String × Condition)

pub record DevSandbox : Type 0 where
  pub name : String
  pub namespace : String
  pub uid : String
  pub creation_time : ℕ
  -- a deletion time is set
  pub deleting : Bool
  pub has_finalizer : Bool
  -- the annotation `devsandbox.io/workspace-pv`, or ""
  pub workspace_pv : String
  pub spec : DevSandboxSpec
  pub status : DevSandboxStatus

-- `decoded` is what JSON gives of a blueprint that is not empty, if it is an object.
pub record Template : Type 0 where
  pub version : String
  pub image_repository : String
  pub image_digest : String
  pub blueprint_empty : Bool
  pub decoded : Option Fields
  pub vscode : Bool
  pub open_code : Bool
  pub service_ports : List ServicePort

abbrev pub Labels : Type 0
Labels = List (String × String)

-- `controller` is the UID of the controlling owner, or "".
pub record Claim : Type 0 where
  pub name : Bytes
  pub controller : String
  pub labels : Labels
  pub storage : String
  pub volume_name : String

pub record Account : Type 0 where
  pub name : Bytes
  pub controller : String
  pub labels : Labels
  pub automount : Option Bool

pub record ActivityLeaseObject : Type 0 where
  pub controller : String
  pub labels : Labels
  pub duration_seconds : Option ℕ
  pub renew_time : Option ℕ

pub record Job : Type 0 where
  pub name : String
  pub sandbox_name : String
  pub summary : JobSummary

pub record UpstreamCondition : Type 0 where
  pub condition_type : String
  pub status : String
  pub reason : String
  pub message : String

pub record Sizing : Type 0 where
  pub ephemeral : String
  pub shm : String
  pub pids : String

-- What of the upstream Sandbox depends on the sandbox, its template and the options of the rendering;
-- the other fields of the pod are constants. The shutdown time is written in whole seconds.
pub record UpstreamSpec : Type 0 where
  pub image : Bytes
  pub operating_mode : String
  pub shutdown_time : ℕ
  pub service_account : Bytes
  pub claim_name : Bytes
  pub cpu : String
  pub memory : String
  pub sizing : Sizing
  pub ports : List ServicePort
  pub code_server_port : Option ℤ
  pub open_code : Bool

pub record Upstream : Type 0 where
  pub name : Bytes
  pub namespace : String
  pub controller : String
  pub labels : Labels
  pub spec : UpstreamSpec
  pub conditions : List UpstreamCondition
