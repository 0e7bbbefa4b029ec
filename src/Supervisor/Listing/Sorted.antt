-- ===== src/Supervisor/Listing/Sorted.antt =====
-- internal/supervisor/manager.go: sortJobs gives the jobs in the order in which they started.
use mathlib.Core.List.{Perm, perm_middle, append-nil}
use mathlib.Core.List.Perm
use aksagent_sandbox.Base.{ℕ, ◌≤◌, List, [], ◌∷◌, ◌++◌, ltb, map, arith, if_elim}
use aksagent_sandbox.Supervisor.Manager.{Job, ManagedJob, Manager}
use aksagent_sandbox.Supervisor.Listing.{insert_job, insert_all, turned, sort_jobs, list_jobs}

-- No job started after the one that comes next.
IsBelow : ℕ → List Job → Type 0
IsBelow t [] = Unit
IsBelow t (x ∷ xs) = (x.started_at ≤ t) × IsBelow x.started_at xs

IsDescending : List Job → Type 0
IsDescending [] = Unit
IsDescending (x ∷ xs) = IsBelow x.started_at xs

IsAbove : ℕ → List Job → Type 0
IsAbove t [] = Unit
IsAbove t (x ∷ xs) = (t ≤ x.started_at) × IsAbove x.started_at xs

pub IsSorted : List Job → Type 0
unfolding IsAbove
IsSorted [] = Unit
IsSorted (x ∷ xs) = IsAbove x.started_at xs

insert_job-IsBelow :
    (t : ℕ) (x : Job) (ys : List Job)
    → x.started_at ≤ t
    → IsBelow t ys
    → IsBelow t (insert_job x ys)
unfolding insert_job IsBelow
insert_job-IsBelow t x [] h k = (h, tt)
insert_job-IsBelow t x (y ∷ ys) h (k, rest) =
    if_elim (IsBelow t) (ltb x.started_at y.started_at) _ _
      (λ p. (k, insert_job-IsBelow y.started_at x ys (ground arith) rest))
      (λ p. (h, (ground arith, rest)))

insert_job-IsDescending :
    (x : Job) (ys : List Job) → IsDescending ys → IsDescending (insert_job x ys)
unfolding insert_job IsDescending IsBelow
insert_job-IsDescending x [] h = tt
insert_job-IsDescending x (y ∷ ys) h =
    if_elim IsDescending (ltb x.started_at y.started_at) _ _
      (λ p. insert_job-IsBelow y.started_at x ys (ground arith) h) (λ p. (ground arith, h))

nothing : IsDescending []
unfolding IsDescending
nothing = tt

insert_all-IsDescending :
    (prefix js : List Job) → IsDescending prefix → IsDescending (insert_all prefix js)
unfolding insert_all
insert_all-IsDescending prefix [] h = h
insert_all-IsDescending prefix (x ∷ xs) h =
    insert_all-IsDescending (insert_job x prefix) xs (insert_job-IsDescending x prefix h)

turned-IsSorted :
    (x : Job) (done xs : List Job)
    → IsAbove x.started_at done
    → IsBelow x.started_at xs
    → IsSorted (turned (x ∷ done) xs)
unfolding turned IsSorted IsBelow IsAbove
turned-IsSorted x done [] h k = h
turned-IsSorted x done (y ∷ ys) h (k, rest) = turned-IsSorted y (x ∷ done) ys (k, h) rest

turned-all : (xs : List Job) → IsDescending xs → IsSorted (turned [] xs)
unfolding turned IsDescending IsAbove IsSorted
turned-all [] h = tt
turned-all (x ∷ xs) h = turned-IsSorted x [] xs tt h

insert_job-Perm : (x : Job) (ys : List Job) → Perm (insert_job x ys) (x ∷ ys)
unfolding insert_job
insert_job-Perm x [] = Perm.refl (x ∷ [])
insert_job-Perm x (y ∷ ys) =
    if_elim (λ zs. Perm zs (x ∷ y ∷ ys)) (ltb x.started_at y.started_at) _ _
      (λ _. Perm.trans (Perm.cons y (insert_job-Perm x ys)) (Perm.swap x y ys))
      (λ _. Perm.refl (x ∷ y ∷ ys))

insert_all-Perm : (prefix js : List Job) → Perm (insert_all prefix js) (js ++ prefix)
unfolding insert_all
insert_all-Perm prefix [] = Perm.refl prefix
insert_all-Perm prefix (x ∷ xs) =
    Perm.trans (insert_all-Perm (insert_job x prefix) xs)
      (Perm.trans (Perm.append_left xs (insert_job-Perm x prefix)) (perm_middle xs prefix))

turned-Perm : (done xs : List Job) → Perm (turned done xs) (xs ++ done)
unfolding turned
turned-Perm done [] = Perm.refl done
turned-Perm done (x ∷ xs) = Perm.trans (turned-Perm (x ∷ done) xs) (perm_middle xs done)

all_of : (js : List Job) → Perm (insert_all [] js) js
all_of js = let p = insert_all-Perm [] js in (rw (append-nil js) at p)

sort_jobs-Perm : (js : List Job) → Perm (sort_jobs js) js
unfolding sort_jobs
sort_jobs-Perm js =
    Perm.trans (turned-Perm [] (insert_all [] js)) (rw (append-nil (insert_all [] js)) (all_of js))

-- The jobs that are listed are those of the manager, each as often, and each starts no later than the
-- next.
pub list_jobs-IsSorted :
    (m : Manager) → IsSorted (list_jobs m) × Perm (list_jobs m) (map (λ j. j.summary) m.jobs)
unfolding list_jobs sort_jobs
list_jobs-IsSorted m =
    let js = map (λ (j : ManagedJob). j.summary) m.jobs in
    (turned-all _ (insert_all-IsDescending [] js nothing), sort_jobs-Perm js)
