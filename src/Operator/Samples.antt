-- ===== src/Operator/Samples.antt =====
-- A cluster for tests of internal/operator: its world is the log of the writes, latest first; no object
-- but the template, the quota and one job is there, and what is applied upstream is ready at once.
use aksagent_sandbox.Base.{
  ◌*◌, String, true, false, Option, none, some, List, [], ◌∷◌, ok, err, if◌then◌else◌, ◌==◌,
}
use aksagent_sandbox.Base.Int.{pos}
use aksagent_sandbox.Base.Bytes.{codes}
use aksagent_sandbox.ApiTypes.{Phase}
use aksagent_sandbox.Lifecycle.Activity.{second}
use aksagent_sandbox.Lifecycle.Quota.{UserQuota}
use aksagent_sandbox.Lifecycle.Quota.Retry.{QuotaStore}
use aksagent_sandbox.Lifecycle.Validation.Samples.{formats, spec}
use aksagent_sandbox.Operator.Objects.{DevSandboxStatus, DevSandbox, Template, UpstreamCondition}
use aksagent_sandbox.Operator.Cluster.{ApiError, not_found, Cluster}

abbrev pub Log : Type 0
Log = List String

abbrev logged : String → Log → Option ApiError × Log
logged what w = (none, what ∷ w)

abbrev pub sample_quota : UserQuota
sample_quota = record {
  resource_version = 0;
  github_user_id = "42";
  limits = record { active = pos 3; retained = pos 10; storage_gib = pos 200 };
  reserved_active = pos 0;
  retained = pos 0;
  provisioned_storage_gib = pos 0;
  reservations = [];
}

abbrev pub quota_store : QuotaStore Log
quota_store = record {
  ctx_err = λ w. (none, w);
  get = λ w. (ok sample_quota, w);
  update_status = λ q w. (none, "update quota" ∷ w);
  wait = λ w. (none, w);
}

abbrev pub template : Template
template = record {
  version = "1.0.0";
  image_repository = "registry.example/base";
  image_digest = "sha256:0123456789abcdef0123456789abcdef0123456789abcdef0123456789ABCDEF";
  blueprint_empty = true;
  decoded = none;
  vscode = false;
  open_code = false;
  service_ports = [];
}

abbrev pub status : Phase → DevSandboxStatus
status p = record {
  phase = p;
  upstream_sandbox_name = [];
  last_activity_time = none;
  idle_deadline = none;
  stopped_at = none;
  retention_deadline = none;
  conditions = [];
}

abbrev pub sandbox : Phase → DevSandbox
sandbox p = record {
  name = "dev";
  namespace = "ns";
  uid = "u1";
  creation_time = 100 * second;
  deleting = false;
  has_finalizer = true;
  workspace_pv = "";
  spec = spec;
  status = status p;
}

abbrev ready : UpstreamCondition
ready = record { condition_type = "Ready"; status = "True"; reason = "PodReady"; message = "" }

abbrev pub cluster : Cluster Log
cluster = record {
  formats = formats;
  quantity_bytes = λ q. if q == "20Gi" then some 21474836480 else none;
  user_digest = λ _. codes "0123456789ab";
  joined_name = λ namespace name. name;
  upstream_type = λ t. t;
  now = λ _. 200 * second;
  same_status = λ _ _. false;
  same_labels = λ _ _. false;
  same_upstream = λ _ _. false;
  get_sandbox = λ w. (err not_found, w);
  update_sandbox = λ s w. (ok s, "update sandbox" ∷ w);
  update_status = λ s. logged "update status";
  delete_sandbox = λ s. logged "delete sandbox";
  get_template = λ name w. (ok template, w);
  get_claim = λ namespace name w. (err not_found, w);
  create_claim = λ namespace name o. logged "create claim";
  delete_claim = λ namespace name. logged "delete claim";
  get_account = λ namespace name w. (err not_found, w);
  create_account = λ namespace name o. logged "create account";
  update_account = λ namespace name o. logged "update account";
  delete_account = λ namespace name. logged "delete account";
  get_lease = λ namespace name w. (err not_found, w);
  create_lease = λ namespace name o. logged "create lease";
  update_lease = λ namespace name o. logged "update lease";
  delete_lease = λ namespace name. logged "delete lease";
  get_upstream = λ namespace name w. (err not_found, w);
  create_upstream =
      λ namespace u w. (ok (record u { conditions = ready ∷ [] }), "create upstream" ∷ w);
  update_upstream = λ namespace u w. (ok u, "update upstream" ∷ w);
  delete_upstream = λ namespace name. logged "delete upstream";
  list_jobs = λ namespace w. (ok [], w);
  delete_job = λ j. logged "delete job";
  get_volume = λ name w. (err not_found, w);
  delete_volume = λ name. logged "delete volume";
  get_quota = λ namespace name w. (ok sample_quota, w);
  create_quota = λ namespace name q. logged "create quota";
  quota_store = λ namespace name. quota_store;
}
