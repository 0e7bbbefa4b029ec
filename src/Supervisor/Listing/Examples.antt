-- ===== src/Supervisor/Listing/Examples.antt =====
-- Two jobs, the later one first.
use mathlib.Core.List.{Perm}
use aksagent_sandbox.Base.{[], ◌∷◌, map}
use aksagent_sandbox.Supervisor.Manager.{Manager, new_manager, new_job}
use aksagent_sandbox.Supervisor.Listing.{list_jobs}
use aksagent_sandbox.Supervisor.Listing.Sorted.{IsSorted, list_jobs-IsSorted}

abbrev two : Manager
two = record new_manager { jobs = new_job "job-b" 7 2 ∷ new_job "job-a" 5 1 ∷ [] }

list_jobs-IsSorted_example :
    IsSorted (list_jobs two) × Perm (list_jobs two) (map (λ j. j.summary) two.jobs)
list_jobs-IsSorted_example = list_jobs-IsSorted two
