-- ===== src/Workload/Jobs/Explained.antt =====
-- A pass over a StatefulSet, a Job or a CronJob that ends the chain says why.
use cluster_agent.Prelude.{
  ◌≡◌, refl, Bool, true, false, not, Option, some, none, String, Result, ok, err, is_some, arith,
  leb, str_eq, at_or_empty, find_first, ◌&&◌, ◌||◌, if◌then◌else◌,
}
use cluster_agent.Api.Meta.{ConditionOps, Duration}
use cluster_agent.Controller.Verdict.{report_not_ready, report_failed}
use cluster_agent.Controller.SubReconciler.{SubReconcilerResult}
use cluster_agent.StackResource.StatusDerive.{revision_annotation}
use cluster_agent.Workload.Readiness.{Pass, check_ports}
use cluster_agent.Workload.StatefulSet.{
  PodEval, StatefulSet, SetCalls, after_write_set, after_probes, after_image, after_mounts,
  apply_stateful_set, restarted, after_apply_set, reconcile_stateful_set, sync_stateful_set,
  stateful_set_converged, converged_result, unconverged_result, evaluate_stateful_set_status,
  note_converged_set, note_unconverged_set,
}
use cluster_agent.Workload.Jobs.{
  Run, RunCondition, JobCalls, CronJob, job_finished, failed_job, running_job, by_failure,
  evaluate_job_status, after_apply_job, after_delete_job, after_find_job, reconcile_job,
  revision_of, evaluate_cron_job_status, reconcile_cron_job, after_apply_cron_job, returns,
}

-- A result that lets the chain go on.
abbrev pub goes_on : SubReconcilerResult → Bool
goes_on r = not (r.result_stop || r.result_requeue || is_some r.result_requeue_after)

abbrev pub has_verdict : Pass → Bool
has_verdict p = is_some p.verdicts.not_ready || is_some p.verdicts.failed

-- The chain goes on, or the pass has reported a verdict.
abbrev pub is_explained : SubReconcilerResult × Pass → Bool
is_explained x = goes_on x.0 || has_verdict x.1

abbrev pub IsExplained : Result SubReconcilerResult × Pass → Type 0
IsExplained x = (r : SubReconcilerResult) → x.0 ≡ ok r → is_explained (r, x.1) ≡ true

module _ ⦃ops : ConditionOps⦄ where
  explained-converged : (x : Duration × Pass) → is_explained (converged_result x) ≡ true
  explained-converged (wait, p) = ground arith

  explained-unconverged : (x : Duration × Pass) → is_explained (unconverged_result x) ≡ true
  unfolding unconverged_result report_not_ready
  explained-unconverged (wait, p) = ground arith

  explained_if :
      (t : Bool) (x y : SubReconcilerResult × Pass)
      → is_explained x ≡ true
      → is_explained y ≡ true
      → is_explained (if t then x else y) ≡ true
  explained_if true x y h k = h
  explained_if false x y h k = k

  stateful_set_explained :
      (e : PodEval) (p : Pass) (s : StatefulSet)
      → is_explained (evaluate_stateful_set_status e p s) ≡ true
  unfolding evaluate_stateful_set_status
  stateful_set_explained e p s =
      let r = sync_stateful_set p.resource s in
      explained_if (stateful_set_converged s) _ _
        (explained-converged (
          check_ports e.env (record p { resource = note_converged_set e r }) s.update_revision
            true))
        (explained-unconverged (
          check_ports e.env (record p { resource = note_unconverged_set e r s }) s.update_revision
            false))

  explained-by_failure :
      (e : PodEval) (p : Pass) (c : Option RunCondition) → is_explained (by_failure e p c) ≡ true
  unfolding failed_job running_job report_not_ready report_failed
  explained-by_failure e p none = ground arith
  explained-by_failure e p (some c) = ground arith

  explained-evaluate_job_status :
      (e : PodEval) (p : Pass) (job : Run) → is_explained (evaluate_job_status e p job) ≡ true
  unfolding evaluate_job_status
  explained-evaluate_job_status e p job = explained_if (leb 1 job.succeeded) _ _ refl (
      explained-by_failure e p
        (find_first (λ c. str_eq c.type "Failed" && c.is_true) job.conditions))

  after_apply_job-IsExplained :
      (p : Pass) (e : Result (Option Run)) → IsExplained (after_apply_job p e)
  unfolding report_not_ready
  after_apply_job-IsExplained p (err e) r q = ground (arith, q)
  after_apply_job-IsExplained p (ok none) r q = ground arith
  after_apply_job-IsExplained p (ok (some job)) r q = ground arith

  after_delete_job-IsExplained : (p : Pass) (e : Option String) → IsExplained (after_delete_job p e)
  unfolding report_not_ready
  after_delete_job-IsExplained p (some e) r q = ground (arith, q)
  after_delete_job-IsExplained p none r q = ground arith

  returns-IsExplained :
      (x : SubReconcilerResult × Pass) → is_explained x ≡ true → IsExplained (returns x)
  returns-IsExplained (s, p) h r q = ground (arith, h, q)

  if-IsExplained :
      (t : Bool) (x y : Result SubReconcilerResult × Pass)
      → IsExplained x
      → IsExplained y
      → IsExplained (if t then x else y)
  if-IsExplained true x y h k = h
  if-IsExplained false x y h k = k

  after_find_job-IsExplained :
      (calls : JobCalls) (e : PodEval) (p : Pass) (found : Result (Option Run))
      → IsExplained (after_find_job calls e p found)
  after_find_job-IsExplained calls e p (err f) r q = ground (arith, q)
  after_find_job-IsExplained calls e p (ok none) r q =
      after_apply_job-IsExplained p (calls.apply_job p.resource) r q
  after_find_job-IsExplained calls e p (ok (some job)) r q =
      if-IsExplained
        (job_finished job
          && not
              (str_eq (at_or_empty job.annotations revision_annotation) (revision_of p.resource)))
        (after_delete_job p (calls.delete_job job)) (returns (evaluate_job_status e p job))
        (after_delete_job-IsExplained p (calls.delete_job job))
        (returns-IsExplained (evaluate_job_status e p job) (explained-evaluate_job_status e p job))
        r q

  after_apply_cron_job-IsExplained :
      (calls : JobCalls) (e : PodEval) (p : Pass) (cj : Result (Option CronJob))
      → IsExplained (after_apply_cron_job calls e p cj)
  unfolding evaluate_cron_job_status report_not_ready
  after_apply_cron_job-IsExplained calls e p (err f) r q = ground (arith, q)
  after_apply_cron_job-IsExplained calls e p (ok none) r q = ground arith
  after_apply_cron_job-IsExplained calls e p (ok (some cj)) r q =
      returns-IsExplained (evaluate_cron_job_status calls e p cj) refl r q

  after_apply_set-IsExplained :
      (e : PodEval) (s : StatefulSet) (restarts : Bool) (p : Pass)
      → IsExplained (after_apply_set e (ok (some (s, restarts)), p))
  unfolding restarted report_not_ready
  after_apply_set-IsExplained e s true p r q = ground arith
  after_apply_set-IsExplained e s false p r q =
      returns-IsExplained (evaluate_stateful_set_status e p s) (stateful_set_explained e p s) r q

  after_write_set-IsExplained :
      (e : PodEval) (p : Pass) (restarts : Bool) (s : Result StatefulSet)
      → IsExplained (after_apply_set e (after_write_set p restarts s))
  after_write_set-IsExplained e p restarts (err f) r q = ground (arith, q)
  after_write_set-IsExplained e p restarts (ok s) r q =
      after_apply_set-IsExplained e s restarts p r q

  after_probes-IsExplained :
      (sets : SetCalls) (e : PodEval) (p : Pass) (o : Option String)
      → IsExplained (after_apply_set e (after_probes sets p o))
  unfolding report_failed
  after_probes-IsExplained sets e p (some f) r q = ground arith
  after_probes-IsExplained sets e p none r q =
      after_write_set-IsExplained e p (sets.requires_restart p.resource)
        (sets.create_or_update p.resource) r q

  after_image-IsExplained :
      (sets : SetCalls) (e : PodEval) (p : Pass) (o : Option String)
      → IsExplained (after_apply_set e (after_image sets p o))
  after_image-IsExplained sets e p (some f) r q = ground (arith, q)
  after_image-IsExplained sets e p none r q =
      after_probes-IsExplained sets e p (sets.build_probes p.resource) r q

  after_mounts-IsExplained :
      (sets : SetCalls) (e : PodEval) (p : Pass) (o : Option String)
      → IsExplained (after_apply_set e (after_mounts sets p o))
  after_mounts-IsExplained sets e p (some f) r q = ground (arith, q)
  after_mounts-IsExplained sets e p none r q =
      after_image-IsExplained sets e p (sets.get_image p.resource) r q

  stateful_set-IsExplained :
      (sets : SetCalls) (e : PodEval) (p : Pass) → IsExplained (reconcile_stateful_set sets e p)
  unfolding reconcile_stateful_set apply_stateful_set
  stateful_set-IsExplained sets e p = after_mounts-IsExplained sets e p (sets.get_mounts p.resource)

  -- Whatever the API answers and whatever the state of the workload, a pass over a StatefulSet, a Job
  -- or a CronJob that ends the chain without an error has reported that the resource is not ready or
  -- has failed, so that no such pass derives a status from the conditions of an earlier run.
  pub workloads-AreExplained :
      (sets : SetCalls) (calls : JobCalls) (e : PodEval) (p : Pass)
      → IsExplained (reconcile_stateful_set sets e p)
        × IsExplained (reconcile_job calls e p)
        × IsExplained (reconcile_cron_job calls e p)
  unfolding reconcile_stateful_set reconcile_job reconcile_cron_job
  workloads-AreExplained sets calls e p = (
    stateful_set-IsExplained sets e p,
    after_find_job-IsExplained calls e p (calls.get_job p.resource),
    after_apply_cron_job-IsExplained calls e p (calls.apply_cron_job p.resource),
  )
