-- ===== src/Workload/StatefulSet.antt =====
-- internal/controller/stackresource/workload/statefulset.go, and the capture of failure details that
-- StatefulSets, Jobs and CronJobs share (failure.go).
-- The list of the resource's pods, the volumes, image and probes of its containers and the write of
-- the object are arguments.
use cluster_agent.Prelude.{
  ℕ, String, Bool, true, false, not, Option, some, none, List, [], Result, ok, err, at_or_empty,
  is_empty, str_eq, ltb, ◌==◌, concat, itoa, ◌∷◌, ◌&&◌, ◌||◌, if◌then◌else◌,
}
use cluster_agent.Api.Meta.{ConditionOps, Duration, release_id_annotation}
use cluster_agent.Api.StackResource.{
  StackResource, LastFailureDetail, workload_available, workload_converged,
}
use cluster_agent.Controller.Verdict.{report_not_ready, report_failed}
use cluster_agent.Controller.SubReconciler.{
  SubReconcilerResult, result_continue, result_stop, requeue_after, deferred_requeue,
}
use cluster_agent.StackResource.Conditions.{set_resource_condition}
use cluster_agent.Workload.Crash.{Pod, capture_failure_details}
use cluster_agent.Workload.Deployment.{poll_interval, set_failure, stamp_converged}
use cluster_agent.Workload.Readiness.{Env, Pass, check_ports}

-- What the evaluations read beside the workload.
pub record PodEval : Type 0 where
  pub env : Env
  pub list_pods : StackResource → Result (List Pod)
  pub sanitize : String → String

abbrev details_of_list : PodEval → StackResource → Result (List Pod) → List LastFailureDetail
details_of_list e r (err f) = []
details_of_list e r (ok pods) =
    capture_failure_details e.sanitize (at_or_empty r.metadata.annotations release_id_annotation)
      pods

-- capturePodFailureDetailsOnce, with capturePodFailureDetails
unfoldable pub capture_pod_failure_details_once : PodEval → StackResource → String → StackResource
unfolding capture_failure_details at_or_empty
capture_pod_failure_details_once e r failure_key =
    if str_eq failure_key "" || str_eq r.status.last_failure_deployment_revision failure_key
    then r
    else let details = details_of_list e r (e.list_pods r) in
      set_failure r details
        (if is_empty details then r.status.last_failure_deployment_revision else failure_key)

-- What the evaluation reads of an appsv1.StatefulSet.
pub record StatefulSet : Type 0 where
  pub generation : ℕ
  pub observed_generation : ℕ
  pub current_revision : String
  pub update_revision : String
  pub replicas : ℕ
  pub ready_replicas : ℕ
  pub updated_replicas : ℕ
  pub available_replicas : ℕ

unfoldable pub stateful_set_converged : StatefulSet → Bool
stateful_set_converged s =
    s.observed_generation == s.generation
    && str_eq s.current_revision s.update_revision
    && s.ready_replicas == 1
    && s.updated_replicas == 1
    && s.available_replicas == 1

abbrev pub sync_stateful_set : StackResource → StatefulSet → StackResource
sync_stateful_set r s = record r {
  status = record r.status {
    replicas = s.replicas;
    available_replicas = s.available_replicas;
    updated_replicas = s.updated_replicas;
  };
}

abbrev not_converged_message : StatefulSet → String
not_converged_message s = concat (
    "statefulset not converged: ready="
    ∷ itoa s.ready_replicas
    ∷ " updated="
    ∷ itoa s.updated_replicas
    ∷ " available="
    ∷ itoa s.available_replicas
    ∷ [])

-- What applying a StatefulSet calls: an error of the volume mounts, of the image and of the probes, if
-- any, whether a restart is requested, and the write of the object.
pub record SetCalls : Type 0 where
  pub get_mounts : StackResource → Option String
  pub get_image : StackResource → Option String
  pub build_probes : StackResource → Option String
  pub requires_restart : StackResource → Bool
  pub create_or_update : StackResource → Result StatefulSet

module _ ⦃ops : ConditionOps⦄ where
  -- evaluateStatefulSetStatus, the result of a converged set after its ports
  abbrev pub converged_result : Duration × Pass → SubReconcilerResult × Pass
  converged_result (wait, p) =
      if ltb 0 wait then (deferred_requeue wait, p) else (result_continue, p)

  -- evaluateStatefulSetStatus, the result of a set that has not converged, after its ports
  unfoldable pub unconverged_result : Duration × Pass → SubReconcilerResult × Pass
  unconverged_result (wait, p) =
      let r =
        set_resource_condition p.resource workload_available false "StatefulSetNotAvailable"
          "statefulset pod not ready" in
      let q = record p {
        resource = r;
        verdicts =
            report_not_ready p.verdicts "StackResourceStatefulSetNotReady"
              "statefulset pod not yet ready";
      } in
      if ltb 0 wait
      then (requeue_after wait, q)
      else if not (is_empty r.status.last_failure_details)
      then (result_stop, q)
      else (requeue_after poll_interval, q)

  -- evaluateStatefulSetStatus, the status of a converged set before its ports
  unfoldable pub note_converged_set : PodEval → StackResource → StackResource
  unfolding stamp_converged
  note_converged_set e r =
      set_failure
        (stamp_converged e.env.now (
          set_resource_condition
            (set_resource_condition r workload_available true "StatefulSetAvailable"
              "statefulset available")
            workload_converged true "FullyConverged"
            "statefulset pod ready on the target revision"))
        [] ""

  -- evaluateStatefulSetStatus, the status of a set that has not converged before its ports
  unfoldable pub note_unconverged_set : PodEval → StackResource → StatefulSet → StackResource
  unfolding capture_pod_failure_details_once concat itoa
  note_unconverged_set e r s =
      capture_pod_failure_details_once e
        (set_resource_condition r workload_converged false "NotConverged" (not_converged_message s))
        s.update_revision

  -- evaluateStatefulSetStatus
  unfoldable pub evaluate_stateful_set_status :
      PodEval → Pass → StatefulSet → SubReconcilerResult × Pass
  unfolding stateful_set_converged unconverged_result note_converged_set note_unconverged_set
  evaluate_stateful_set_status e p s =
      let r = sync_stateful_set p.resource s in
      if stateful_set_converged s
      then converged_result (
          check_ports e.env (record p { resource = note_converged_set e r }) s.update_revision true)
      else unconverged_result (
          check_ports e.env (record p { resource = note_unconverged_set e r s }) s.update_revision
            false)

  -- applyStatefulSet: the applied set, if the specification has probes, and whether it restarts.
  abbrev pub after_write_set :
      Pass → Bool → Result StatefulSet → Result (Option (StatefulSet × Bool)) × Pass
  after_write_set p restarts (err f) = (err f, p)
  after_write_set p restarts (ok s) = (ok (some (s, restarts)), p)

  abbrev pub after_probes :
      SetCalls → Pass → Option String → Result (Option (StatefulSet × Bool)) × Pass
  after_probes calls p (some f) =
      (ok none, record p { verdicts = report_failed p.verdicts "InvalidSpec" f })
  after_probes calls p none =
      after_write_set p (calls.requires_restart p.resource) (calls.create_or_update p.resource)

  abbrev pub after_image :
      SetCalls → Pass → Option String → Result (Option (StatefulSet × Bool)) × Pass
  after_image calls p (some f) = (err f, p)
  after_image calls p none = after_probes calls p (calls.build_probes p.resource)

  abbrev pub after_mounts :
      SetCalls → Pass → Option String → Result (Option (StatefulSet × Bool)) × Pass
  after_mounts calls p (some f) = (err f, p)
  after_mounts calls p none = after_image calls p (calls.get_image p.resource)

  unfoldable pub apply_stateful_set : SetCalls → Pass → Result (Option (StatefulSet × Bool)) × Pass
  apply_stateful_set calls p = after_mounts calls p (calls.get_mounts p.resource)

  -- reconcileStatefulSet, the set that was restarted
  unfoldable pub restarted : PodEval → Pass → Pass
  restarted e p = record p {
    resource = record p.resource {
      status = record p.resource.status { last_restart_request_processed_at = some e.env.now };
    };
    verdicts =
        report_not_ready p.verdicts "StackResourceStatefulSetNotReady"
          "StackResource statefulset restart requested";
  }

  abbrev pub after_apply_set :
      PodEval → Result (Option (StatefulSet × Bool)) × Pass → Result SubReconcilerResult × Pass
  after_apply_set e (err f, p) = (err f, p)
  after_apply_set e (ok none, p) = (ok result_stop, p)
  after_apply_set e (ok (some (s, true)), p) = (ok result_stop, restarted e p)
  after_apply_set e (ok (some (s, false)), p) =
      let (r, q) = evaluate_stateful_set_status e p s in (ok r, q)

  -- reconcileStatefulSet
  unfoldable pub reconcile_stateful_set :
      SetCalls → PodEval → Pass → Result SubReconcilerResult × Pass
  unfolding apply_stateful_set restarted evaluate_stateful_set_status
  reconcile_stateful_set calls e p = after_apply_set e (apply_stateful_set calls p)
