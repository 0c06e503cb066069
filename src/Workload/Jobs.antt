-- ===== src/Workload/Jobs.antt =====
-- internal/controller/stackresource/workload/job.go and cronjob.go: runs to completion.
-- The construction of the objects, with their creation, is an argument.

pub mod Explained
pub mod Latest
use cluster_agent.Prelude.{
  ℕ, String, Bool, true, false, not, Option, some, none, List, [], ◌∷◌, Map, Result, ok, err,
  at_or_empty, is_empty, str_eq, ltb, leb, exists, find_first, ◌&&◌, ◌||◌, ◌*◌, if◌then◌else◌,
}
use cluster_agent.Api.Meta.{ConditionOps, Duration, Time, second}
use cluster_agent.Api.StackResource.{StackResource, workload_available, workload_converged}
use cluster_agent.Controller.Verdict.{report_not_ready, report_failed}
use cluster_agent.Controller.SubReconciler.{
  SubReconcilerResult, result_continue, result_stop, requeue_after,
}
use cluster_agent.StackResource.Conditions.{set_resource_condition}
use cluster_agent.StackResource.StatusDerive.{revision_annotation}
use cluster_agent.Workload.Deployment.{poll_interval, set_failure}
use cluster_agent.Workload.Readiness.{Pass}
use cluster_agent.Workload.StatefulSet.{PodEval, capture_pod_failure_details_once}

-- What is read of a batchv1.Job and of a batchv1.CronJob; a condition by whether it is True.
pub record RunCondition : Type 0 where
  pub type : String
  pub is_true : Bool
  pub message : String

pub record Run : Type 0 where
  pub name : String
  pub annotations : Map String
  pub controller_uid : Option String
  pub succeeded : ℕ
  pub completion_time : Option Time
  pub conditions : List RunCondition

pub record CronJob : Type 0 where
  pub uid : String
  pub last_schedule_time : Option Time

pub record JobCalls : Type 0 where
  pub get_job : StackResource → Result (Option Run)
  pub apply_job : StackResource → Result (Option Run)
  pub delete_job : Run → Option String
  pub apply_cron_job : StackResource → Result (Option CronJob)
  pub list_jobs : StackResource → Result (List Run)

-- jobFinished
unfoldable pub job_finished : Run → Bool
unfolding exists
job_finished job =
    exists (λ c. (str_eq c.type "Complete" || str_eq c.type "Failed") && c.is_true) job.conditions

abbrev pub revision_of : StackResource → String
revision_of r = at_or_empty r.metadata.annotations revision_annotation

abbrev set_last_run : StackResource → Option Time → Bool → StackResource
set_last_run r t success = record r {
  status = record r.status { last_run_time = t; last_run_succeeded = some success };
}

module _ ⦃ops : ConditionOps⦄ where
  abbrev run_conditions : StackResource → String → String → StackResource
  run_conditions r reason message =
      set_resource_condition (set_resource_condition r workload_converged true reason message)
        workload_available true reason message

  -- evaluateJobStatus, the job that failed
  unfoldable pub failed_job : PodEval → Pass → String → SubReconcilerResult × Pass
  unfolding capture_pod_failure_details_once at_or_empty
  failed_job e p message = (
    result_stop,
    record p {
      resource =
          capture_pod_failure_details_once e (set_last_run p.resource (some e.env.now) false)
            (revision_of p.resource);
      verdicts = report_failed p.verdicts "JobFailed" message;
    },
  )

  -- evaluateJobStatus, the job that still runs
  unfoldable pub running_job : PodEval → Pass → SubReconcilerResult × Pass
  unfolding capture_pod_failure_details_once at_or_empty
  running_job e p =
      let q = record p {
        resource = capture_pod_failure_details_once e p.resource (revision_of p.resource);
        verdicts = report_not_ready p.verdicts "JobRunning" "job is still running";
      } in
      (
        if not (is_empty q.resource.status.last_failure_details)
            then result_stop
            else requeue_after poll_interval,
        q,
      )

  abbrev pub by_failure : PodEval → Pass → Option RunCondition → SubReconcilerResult × Pass
  by_failure e p (some c) = failed_job e p c.message
  by_failure e p none = running_job e p

  -- evaluateJobStatus
  unfoldable pub evaluate_job_status : PodEval → Pass → Run → SubReconcilerResult × Pass
  unfolding failed_job running_job find_first
  evaluate_job_status e p job =
      if leb 1 job.succeeded
      then (
        result_continue,
        record p {
          resource =
              run_conditions (set_failure (set_last_run p.resource job.completion_time true) [] "")
                "JobComplete" "job completed successfully";
        },
      )
      else by_failure e p (find_first (λ c. str_eq c.type "Failed" && c.is_true) job.conditions)

  abbrev wait_for : Pass → String → Duration → Result SubReconcilerResult × Pass
  wait_for p message delay = (
    ok (requeue_after delay),
    record p { verdicts = report_not_ready p.verdicts "JobRunning" message },
  )

  -- The source calls the branch without a job unreachable today.
  abbrev pub after_apply_job : Pass → Result (Option Run) → Result SubReconcilerResult × Pass
  after_apply_job p (err e) = (err e, p)
  after_apply_job p (ok none) = (
    ok result_stop,
    record p {
      verdicts = report_not_ready p.verdicts "JobRunning" "waiting for the job to be created";
    },
  )
  after_apply_job p (ok (some job)) = wait_for p "job created, waiting for completion" (5 * second)

  abbrev pub after_delete_job : Pass → Option String → Result SubReconcilerResult × Pass
  after_delete_job p (some e) = (err e, p)
  after_delete_job p none =
      wait_for p "waiting for the new revision's job to be created" (2 * second)

  abbrev pub returns : SubReconcilerResult × Pass → Result SubReconcilerResult × Pass
  returns (r, p) = (ok r, p)

  abbrev pub after_find_job :
      JobCalls → PodEval → Pass → Result (Option Run) → Result SubReconcilerResult × Pass
  after_find_job calls e p (err f) = (err f, p)
  after_find_job calls e p (ok none) = after_apply_job p (calls.apply_job p.resource)
  after_find_job calls e p (ok (some job)) =
      if job_finished job
        && not (str_eq (at_or_empty job.annotations revision_annotation) (revision_of p.resource))
      then after_delete_job p (calls.delete_job job)
      else returns (evaluate_job_status e p job)

  -- reconcileJob
  unfoldable pub reconcile_job : JobCalls → PodEval → Pass → Result SubReconcilerResult × Pass
  unfolding job_finished evaluate_job_status at_or_empty
  reconcile_job calls e p = after_find_job calls e p (calls.get_job p.resource)

abbrev pub is_child : CronJob → Run → Bool
is_child cj job = elim job.controller_uid [ none ↦ false | some uid ↦ str_eq uid cj.uid ]

-- `j.Status.CompletionTime.After(latest.Status.CompletionTime.Time)`; the latest one has a time.
abbrev is_later : Time → Option Run → Bool
is_later t none = true
is_later t (some latest) = elim latest.completion_time [ none ↦ true | some u ↦ ltb u t ]

abbrev choose_latest : CronJob → Option Run → Run → Option Run
choose_latest cj latest job = elim job.completion_time [
  | none ↦ latest
  | some t ↦ if is_child cj job && is_later t latest then some job else latest
]

-- latestCompletedChildJob: the loop, with the latest job so far
unfoldable pub latest_completed : CronJob → Option Run → List Run → Option Run
latest_completed cj latest [] = latest
latest_completed cj latest (job ∷ jobs) = latest_completed cj (choose_latest cj latest job) jobs

-- latestCompletedChildJob
unfoldable pub latest_completed_child_job : CronJob → Result (List Run) → Option Run
unfolding latest_completed
latest_completed_child_job cj (err e) = none
latest_completed_child_job cj (ok jobs) = latest_completed cj none jobs

module _ ⦃ops : ConditionOps⦄ where
  abbrev note_latest : PodEval → StackResource → Option Run → StackResource
  note_latest e r none = r
  note_latest e r (some job) =
      let succeeded = leb 1 job.succeeded in
      let s = record r { status = record r.status { last_run_succeeded = some succeeded } } in
      if succeeded then set_failure s [] "" else capture_pod_failure_details_once e s job.name

  abbrev note_schedule : StackResource → Option Time → StackResource
  note_schedule r none = r
  note_schedule r (some t) = record r { status = record r.status { last_run_time = some t } }

  -- evaluateCronJobStatus
  unfoldable pub evaluate_cron_job_status :
      JobCalls → PodEval → Pass → CronJob → SubReconcilerResult × Pass
  unfolding capture_pod_failure_details_once latest_completed_child_job
  evaluate_cron_job_status calls e p cj =
      let r =
        run_conditions p.resource "CronJobScheduled" "cronjob installed with valid schedule" in
      let latest = latest_completed_child_job cj (calls.list_jobs p.resource) in
      (
        result_continue,
        record p { resource = note_latest e (note_schedule r cj.last_schedule_time) latest },
      )

  abbrev pub after_apply_cron_job :
      JobCalls → PodEval → Pass → Result (Option CronJob) → Result SubReconcilerResult × Pass
  after_apply_cron_job calls e p (err f) = (err f, p)
  after_apply_cron_job calls e p (ok none) = (
    ok result_stop,
    record p {
      verdicts =
          report_not_ready p.verdicts "CronJobNotReady" "waiting for the cronjob to be created";
    },
  )
  after_apply_cron_job calls e p (ok (some cj)) = returns (evaluate_cron_job_status calls e p cj)

  -- reconcileCronJob
  unfoldable pub reconcile_cron_job : JobCalls → PodEval → Pass → Result SubReconcilerResult × Pass
  unfolding evaluate_cron_job_status
  reconcile_cron_job calls e p = after_apply_cron_job calls e p (calls.apply_cron_job p.resource)
