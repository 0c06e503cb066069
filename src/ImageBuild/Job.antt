-- ===== src/ImageBuild/Job.antt =====
-- internal/controller/imagebuild: the build job, and what its state makes of the build
-- (imagebuild_controller.go, reconcileBuildJob and handleBuildJobCreation; build_failure.go).
use cluster_agent.Prelude.{
  String, Bool, false, Option, some, none, List, [], ◌∷◌, Result, ok, err, find_first, str_eq,
  is_some, sort_by, at_or_empty, if◌then◌else◌,
}
use cluster_agent.Api.Meta.{ConditionOps, cond_true, cond_false, release_id_annotation}
use cluster_agent.Api.StackResource.{LastFailureDetail}
use cluster_agent.Api.ImageBuild.{ImageBuild, phase_failed, build_available, build_failed}
use cluster_agent.Controller.SubReconciler.{CtrlResult, done}
use cluster_agent.Workload.Crash.{
  Pod, ContainerStatus, newest_first, is_crash_state, build_last_failure_detail,
}
use cluster_agent.ImageBuild.Calls.{
  BuildCalls, BuildJob, JobCondition, BuildParams, image_url_of, JobWrite, creates_job,
}
use cluster_agent.ImageBuild.Status.{
  set_status, set_phase, report_image_build_status, report_image_build_complete, mark_job_created,
}

-- How a part of a pass ends: what it returns, the build as it is in memory, and what it asked to be
-- done to jobs.
pub record Ended : Type 0 where
  pub result : Result CtrlResult
  pub build : ImageBuild
  pub writes : List JobWrite

abbrev pub stops_with : ImageBuild → String → Ended
stops_with b e = record { result = err e; build = b; writes = [] }

abbrev pub ends_with : ImageBuild → CtrlResult → Ended
ends_with b r = record { result = ok r; build = b; writes = [] }

abbrev build_container_name : String
build_container_name = "kaniko"

abbrev detail_of_container : BuildCalls → Option ContainerStatus → Option LastFailureDetail
detail_of_container calls none = none
detail_of_container calls (some container) =
    if is_crash_state container
    then some (build_last_failure_detail calls.sanitize_message "" container)
    else none

abbrev detail_of_pods : BuildCalls → List Pod → Option LastFailureDetail
detail_of_pods calls [] = none
detail_of_pods calls (pod ∷ pods) =
    detail_of_container calls
      (find_first (λ cs. str_eq cs.name build_container_name) pod.container_statuses)

abbrev after_pods : BuildCalls → Result (List Pod) → Result (Option LastFailureDetail)
after_pods calls (err e) = err e
after_pods calls (ok pods) = ok (detail_of_pods calls (sort_by newest_first pods))

-- getBuildFailureDetail: the crashed build container of the newest pod of the job.
unfoldable pub get_build_failure_detail : BuildCalls → BuildJob → Result (Option LastFailureDetail)
unfolding find_first sort_by is_crash_state build_last_failure_detail
get_build_failure_detail calls job = after_pods calls (calls.list_pods job)

abbrev is_true_condition : Option JobCondition → Bool
is_true_condition none = false
is_true_condition (some c) = c.is_true

-- findJobCondition, and whether what it finds is True
unfoldable pub job_condition_true : BuildJob → String → Bool
unfolding find_first
job_condition_true job type =
    is_true_condition (find_first (λ c. str_eq c.type type) job.conditions)

abbrev set_detail : ImageBuild → Option LastFailureDetail → ImageBuild
set_detail b d = set_status b (record b.status { last_build_failure_detail = d })

-- The details of a failed job: those of before stay when its pods are gone or cannot be listed.
abbrev pub keep_failure : ImageBuild → Result (Option LastFailureDetail) → ImageBuild
keep_failure b (err e) = b
keep_failure b (ok none) = b
keep_failure b (ok (some detail)) =
    set_detail b (
      some
        (record detail { release_id = at_or_empty b.metadata.annotations release_id_annotation }))

-- The details of a job that still runs.
abbrev pub note_failure : ImageBuild → Result (Option LastFailureDetail) → ImageBuild
note_failure b (err e) = b
note_failure b (ok detail) = set_detail b detail

module _ ⦃ops : ConditionOps⦄ (calls : BuildCalls) where
  -- handleBuildJobCreation
  unfoldable pub after_create : ImageBuild → BuildJob → Option String → Ended
  after_create b job (some e) = record { result = err e; build = b; writes = creates_job job ∷ [] }
  after_create b job none = record {
    result = ok done;
    build = mark_job_created b;
    writes = creates_job job ∷ [];
  }

  -- The branches on an existing job.
  unfoldable pub complete_build : ImageBuild → BuildParams → Ended
  complete_build b params =
      ends_with
        (report_image_build_complete calls.print_hash
          (set_status b (record b.status { image_url = image_url_of params })))
        done

  unfoldable pub fail_build : ImageBuild → BuildJob → Ended
  unfolding get_build_failure_detail at_or_empty
  fail_build b job =
      ends_with
        (set_phase
          (report_image_build_status calls.print_hash
            (keep_failure b (get_build_failure_detail calls job)) build_failed cond_true
            "BuildJobFailed")
          phase_failed)
        done

  unfoldable pub wait_for_build : ImageBuild → BuildJob → Ended
  unfolding get_build_failure_detail
  wait_for_build b job =
      let noted =
        if is_some b.status.last_build_failure_detail
        then b
        else note_failure b (get_build_failure_detail calls job) in
      ends_with
        (report_image_build_status calls.print_hash noted build_available cond_false
          "BuildJobNotYetComplete")
        done

  unfoldable pub judge_job : ImageBuild → BuildParams → BuildJob → Ended
  unfolding job_condition_true complete_build fail_build wait_for_build
  judge_job b params job =
      if job_condition_true job "Complete"
      then complete_build b params
      else if job_condition_true job "Failed"
      then fail_build b job
      else wait_for_build b job

  abbrev pub after_get_job : ImageBuild → BuildJob → BuildParams → Result (Option BuildJob) → Ended
  after_get_job b desired params (err e) = stops_with b e
  after_get_job b desired params (ok none) = after_create b desired (calls.create_job desired)
  after_get_job b desired params (ok (some existing)) = judge_job b params existing

  -- reconcileBuildJob
  unfoldable pub reconcile_build_job : ImageBuild → BuildJob → BuildParams → Ended
  unfolding after_create judge_job
  reconcile_build_job b desired params =
      after_get_job b desired params (calls.get_job desired.name desired.namespace)
