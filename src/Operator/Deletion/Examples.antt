-- ===== src/Operator/Deletion/Examples.antt =====
-- The deletion of a sandbox whose volume is already gone, with a job of its own and one of another.
use aksagent_sandbox.Base.{◌≡◌, refl, String, true, some, [], ◌∷◌, ok}
use aksagent_sandbox.ApiTypes.{phase_running}
use aksagent_sandbox.Lifecycle.Activity.{JobSummary, completed}
use aksagent_sandbox.Operator.Cluster.{Cluster}
use aksagent_sandbox.Operator.Objects.{DevSandbox, Job}
use aksagent_sandbox.Operator.Status.{done}
use aksagent_sandbox.Operator.Deletion.{reconcile_delete}
use aksagent_sandbox.Operator.Deletion.Cleaned.{IsCleaned, reconcile_delete-IsCleaned}
use aksagent_sandbox.Operator.Samples.{Log, cluster, sandbox}

abbrev deleted : DevSandbox
deleted = record (sandbox phase_running) { deleting = true; workspace_pv = "pv-1" }

abbrev summary : JobSummary
summary = record { state = completed; completed_at = some 5 }

abbrev job_of : String → Job
job_of name = record { name = "job"; sandbox_name = name; summary = summary }

abbrev busy : Cluster Log
busy = record cluster { list_jobs = λ namespace w. (ok (job_of "other" ∷ job_of "dev" ∷ []), w) }

abbrev log : Log
log =
    "update sandbox" ∷ "delete job" ∷ "delete upstream" ∷ "delete claim" ∷ "delete account"
    ∷ "delete lease" ∷ []

deleted_done : reconcile_delete busy deleted [] ≡ (ok done, log)
unfolding reconcile_delete
deleted_done = refl

reconcile_delete-IsCleaned_example : IsCleaned busy deleted [] log
reconcile_delete-IsCleaned_example =
    reconcile_delete-IsCleaned busy deleted [] log refl deleted_done
