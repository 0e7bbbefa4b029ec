-- ===== src/Supervisor/Listing.antt =====
-- internal/supervisor/manager.go: Jobs, with sortJobs. The prefix that is sorted so far is a list with
-- its last job first, which is where the inner loop starts.
pub mod Sorted
mod Examples
use aksagent_sandbox.Base.{ℕ, Bool, List, [], ◌∷◌, ltb, if◌then◌else◌, map}
use aksagent_sandbox.Supervisor.Manager.{Job, ManagedJob, Manager}

-- The inner loop: the new job moves before each job that started after it.
pub insert_job : Job → List Job → List Job
insert_job x [] = x ∷ []
insert_job x (y ∷ ys) =
    let rest = insert_job x ys in if ltb x.started_at y.started_at then y ∷ rest else x ∷ y ∷ ys

pub insert_all : List Job → List Job → List Job
unfolding insert_job
insert_all prefix [] = prefix
insert_all prefix (x ∷ xs) = insert_all (insert_job x prefix) xs

pub turned : List Job → List Job → List Job
turned done [] = done
turned done (x ∷ xs) = turned (x ∷ done) xs

-- sortJobs
pub sort_jobs : List Job → List Job
unfolding insert_all turned
sort_jobs js = turned [] (insert_all [] js)

-- Jobs, of the jobs in the order in which the map gives them.
pub list_jobs : Manager → List Job
unfolding sort_jobs
list_jobs m = sort_jobs (map (λ j. j.summary) m.jobs)
