-- ===== src/Workload/Jobs/Latest.antt =====
-- The run that a CronJob reports is its latest completed one.
use cluster_agent.Prelude.{
  ℕ, suc, ◌≤◌, ◌≡◌, true, Option, some, none, List, [], ◌∷◌, All, ok, arith,
}
use cluster_agent.Workload.Jobs.{
  Run, CronJob, is_child, choose_latest, latest_completed, latest_completed_child_job,
}

-- When a run completed, one more than the time, and 0 for a run that has not.
abbrev pub completed_at : Run → ℕ
completed_at job = elim job.completion_time [ none ↦ 0 | some t ↦ suc t ]

abbrev pub best : Option Run → ℕ
best none = 0
best (some job) = completed_at job

choose_latest_bounds :
    (cj : CronJob) (latest : Option Run) (job : Run)
    → (best latest ≤ best (choose_latest cj latest job))
      × (is_child cj job ≡ true → completed_at job ≤ best (choose_latest cj latest job))
choose_latest_bounds cj none job = ground arith
choose_latest_bounds cj (some latest) job = ground arith

-- A run of the CronJob that has completed, or none.
abbrev pub IsOwn : CronJob → Option Run → Type 0
IsOwn cj none = Unit
IsOwn cj (some job) = (is_child cj job ≡ true) × (1 ≤ completed_at job)

choose_latest-IsOwn :
    (cj : CronJob) (latest : Option Run) (job : Run)
    → IsOwn cj latest
    → IsOwn cj (choose_latest cj latest job)
choose_latest-IsOwn cj none job h = ground (arith, h)
choose_latest-IsOwn cj (some latest) job h = ground (arith, h)

latest_completed-IsOwn :
    (cj : CronJob) (latest : Option Run) (jobs : List Run)
    → IsOwn cj latest
    → IsOwn cj (latest_completed cj latest jobs)
unfolding latest_completed
latest_completed-IsOwn cj latest [] h = h
latest_completed-IsOwn cj latest (job ∷ jobs) h =
    latest_completed-IsOwn cj (choose_latest cj latest job) jobs
      (choose_latest-IsOwn cj latest job h)

-- Every run of the CronJob in the list completed no later than this.
abbrev pub NoneLater : CronJob → List Run → ℕ → Type 0
NoneLater cj jobs t = All (λ j. is_child cj j ≡ true → completed_at j ≤ t) jobs

latest_completed_bounds :
    (cj : CronJob) (latest : Option Run) (jobs : List Run)
    → (best latest ≤ best (latest_completed cj latest jobs))
      × NoneLater cj jobs (best (latest_completed cj latest jobs))
unfolding latest_completed
latest_completed_bounds cj latest [] = (omega arith, tt)
latest_completed_bounds cj latest (job ∷ jobs) =
    let (here, rest) = latest_completed_bounds cj (choose_latest cj latest job) jobs in
    let (kept, own) = choose_latest_bounds cj latest job in
    (omega (arith, here, kept), ((λ h. omega (arith, here, own h)), rest))

-- Of the runs that the API lists, the one that a CronJob reports belongs to the CronJob and has
-- completed, and no run of the CronJob in the list completed after it; where it reports none, no run
-- of the CronJob in the list has completed.
pub latest_completed_child_job_lem :
    (cj : CronJob) (jobs : List Run)
    → IsOwn cj (latest_completed_child_job cj (ok jobs))
      × NoneLater cj jobs (best (latest_completed_child_job cj (ok jobs)))
unfolding latest_completed_child_job
latest_completed_child_job_lem cj jobs =
    (latest_completed-IsOwn cj none jobs tt, (latest_completed_bounds cj none jobs).1)
