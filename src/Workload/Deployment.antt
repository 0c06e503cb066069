-- ===== src/Workload/Deployment.antt =====
-- internal/controller/stackresource/workload/availability.go and the status half of deployment.go,
-- with the rollout test of internal/controller/util.go.
-- The Deployment that was applied is an argument, as is the capture of failure details from the
-- pods of a revision, which is empty where listing them fails.
pub mod Facts
pub mod Ports
pub mod Notes
pub mod EndToEnd
use cluster_agent.Prelude.{
  ℕ, String, Bool, true, false, not, Option, some, none, List, [], ◌∷◌, Map, concat, itoa, lookup,
  at_or_empty, exists, is_empty, str_eq, leb, ltb, ◌==◌, ◌-◌, ◌*◌, ◌/◌, max, ◌&&◌, ◌||◌,
  if◌then◌else◌, is_some,
}
use cluster_agent.Api.Meta.{
  ConditionOps, ConditionStatus, is_cond_true, is_cond_false, Time, Duration, second, minute,
}
use cluster_agent.Api.StackResource.{
  StackResource, LastFailureDetail, ConvergenceRecord, workload_available, workload_converged,
}
use cluster_agent.Controller.Verdict.{report_not_ready}
use cluster_agent.Controller.SubReconciler.{
  SubReconcilerResult, result_continue, result_stop, requeue_after, deferred_requeue,
}
use cluster_agent.StackResource.Conditions.{set_resource_condition}
use cluster_agent.StackResource.StatusDerive.{revision_annotation}
use cluster_agent.Workload.Readiness.{Env, Pass, check_ports, set_details}

-- appsv1.DeploymentCondition
pub record DeploymentCondition : Type 0 where
  pub type : String
  pub status : ConditionStatus
  pub reason : String
  pub last_transition_time : Time

-- What the evaluation reads of an appsv1.Deployment.
pub record Deployment : Type 0 where
  pub generation : ℕ
  pub annotations : Map String
  pub spec_replicas : Option ℕ
  pub observed_generation : ℕ
  pub replicas : ℕ
  pub updated_replicas : ℕ
  pub ready_replicas : ℕ
  pub available_replicas : ℕ
  pub unavailable_replicas : ℕ
  pub conditions : List DeploymentCondition

-- `condition.Type == DeploymentAvailable && condition.Status == ConditionTrue`, in a loop
abbrev pub has_available : List DeploymentCondition → Bool
has_available [] = false
has_available (c ∷ cs) =
    if str_eq c.type "Available" && is_cond_true c.status then true else has_available cs

-- deploymentRolledOut
unfoldable pub deployment_rolled_out : Deployment → Bool
deployment_rolled_out d =
    if not (d.generation == d.observed_generation) then false else d.replicas == d.updated_replicas

-- deploymentServing
unfoldable pub deployment_serving : Deployment → Bool
deployment_serving d =
    if not (d.generation == d.observed_generation) then false else has_available d.conditions

abbrev pub desired_replicas : Option ℕ → ℕ
desired_replicas none = 1
desired_replicas (some n) = n

-- deploymentConverged
unfoldable pub deployment_converged : Deployment → Bool
deployment_converged d =
    let desired = desired_replicas d.spec_replicas in
    if not (d.generation == d.observed_generation)
    then false
    else if not (d.updated_replicas == desired)
        || not (d.ready_replicas == desired)
        || not (d.available_replicas == desired)
        || not (d.unavailable_replicas == 0)
    then false
    else has_available d.conditions

-- maxUnavailableForReplicas
unfoldable pub max_unavailable_for_replicas : ℕ → ℕ
max_unavailable_for_replicas replicas = if leb replicas 1 then 0 else max 1 (replicas / 4)

-- DeploymentRolloutSettled: the first Progressing condition that is decisive decides.
unfoldable pub deployment_rollout_settled : Time → Duration → List DeploymentCondition → Bool
deployment_rollout_settled now grace [] = false
deployment_rollout_settled now grace (c ∷ cs) =
    let rest = deployment_rollout_settled now grace cs in
    if not (str_eq c.type "Progressing")
    then rest
    else if is_cond_false c.status && str_eq c.reason "ProgressDeadlineExceeded"
    then true
    else if is_cond_true c.status && str_eq c.reason "NewReplicaSetAvailable"
    then leb grace (now - c.last_transition_time)
    else rest

abbrev stopped_reason : List DeploymentCondition → String
stopped_reason [] = ""
stopped_reason (c ∷ cs) =
    if str_eq c.type "Progressing" && is_cond_false c.status
    then concat ("; " ∷ c.reason ∷ [])
    else stopped_reason cs

-- convergenceMessage
unfoldable pub convergence_message : Deployment → String
unfolding concat itoa
convergence_message d =
    let desired = itoa (desired_replicas d.spec_replicas) in
    concat (
      "rollout not converged: "
      ∷ itoa d.updated_replicas
      ∷ "/"
      ∷ desired
      ∷ " updated, "
      ∷ itoa d.ready_replicas
      ∷ "/"
      ∷ desired
      ∷ " ready, "
      ∷ itoa d.unavailable_replicas
      ∷ " unavailable"
      ∷ stopped_reason d.conditions
      ∷ [])

abbrev pub grace_after_new_replica_set : Duration
grace_after_new_replica_set = 3 * minute

abbrev pub poll_interval : Duration
poll_interval = 10 * second

-- stampLastConverged: written once for each revision.
unfoldable pub stamp_converged : Time → StackResource → StackResource
unfolding lookup
stamp_converged now r = stamp (lookup r.metadata.annotations revision_annotation)
  where
    stamped : String → StackResource
    stamped rev = record r {
      status = record r.status { last_converged = some (record { revision = rev; at = now }) };
    }

    against : String → Option ConvergenceRecord → StackResource
    against rev none = stamped rev
    against rev (some lc) = if not (str_eq lc.revision rev) then stamped rev else r

    stamp : Option String → StackResource
    stamp none = r
    stamp (some rev) = against rev r.status.last_converged

-- What an evaluation reads beside the Deployment.
pub record Eval : Type 0 where
  pub env : Env
  pub capture : StackResource → String → List LastFailureDetail

abbrev pub set_failure : StackResource → List LastFailureDetail → String → StackResource
set_failure r ds revision = record r {
  status = record r.status {
    last_failure_details = ds;
    last_failure_deployment_revision = revision;
  };
}

-- captureFailureDetailsOnce
unfoldable pub capture_failure_details_once : Eval → StackResource → String → StackResource
capture_failure_details_once e r revision =
    let details = e.capture r revision in
    if str_eq r.status.last_failure_deployment_revision revision
    then r
    else if is_empty details
    then set_failure r details r.status.last_failure_deployment_revision
    else set_failure r details revision

abbrev pub sync_replicas : StackResource → Deployment → StackResource
sync_replicas r d = record r {
  status = record r.status {
    replicas = d.replicas;
    available_replicas = d.available_replicas;
    updated_replicas = d.updated_replicas;
  };
}

module _ ⦃ops : ConditionOps⦄ where
  -- evaluateDeploymentStatus, the convergence condition
  unfoldable pub note_convergence : Time → Bool → StackResource → Deployment → StackResource
  note_convergence now true r d = stamp_converged now (
      set_resource_condition r workload_converged true "FullyConverged"
        "all replicas updated and available on the target revision")
  note_convergence now false r d =
      set_resource_condition r workload_converged false "NotConverged" (convergence_message d)

  -- evaluateDeploymentStatus, the status of a serving deployment before the ports
  unfoldable pub note_serving : Eval → Bool → StackResource → String → StackResource
  note_serving e is_converged r revision =
      let s =
        set_resource_condition r workload_available true "DeploymentServing"
          "deployment serving at minimum availability" in
      if is_converged then set_failure s [] "" else capture_failure_details_once e s revision

  -- evaluateDeploymentStatus, the result of a serving deployment
  unfoldable pub serving_result :
      Eval → Bool → Deployment → Duration × Pass → SubReconcilerResult × Pass
  serving_result e is_converged d (wait, p) =
      if ltb 0 wait
      then (deferred_requeue wait, p)
      else if not is_converged
          && is_empty p.resource.status.last_failure_details
          && not (deployment_rollout_settled e.env.now grace_after_new_replica_set d.conditions)
      then (deferred_requeue poll_interval, p)
      else (result_continue, p)

  -- evaluateDeploymentStatus, the status of a deployment that does not serve
  unfoldable pub note_not_serving : Eval → StackResource → String → StackResource
  note_not_serving e r revision =
      capture_failure_details_once e
        (set_resource_condition r workload_available false "DeploymentNotAvailable"
          "deployment is not yet available")
        revision

  -- evaluateDeploymentStatus, the result of a deployment that does not serve
  unfoldable pub not_serving_result :
      Eval → Deployment → Duration × Pass → SubReconcilerResult × Pass
  not_serving_result e d (wait, p) =
      let q = record p {
        verdicts =
            report_not_ready p.verdicts "StackResourceDeploymentNotReady"
              "StackResourceDeploymentNotReady";
      } in
      if not (deployment_rollout_settled e.env.now grace_after_new_replica_set d.conditions)
      then (requeue_after poll_interval, q)
      else if ltb 0 wait
      then (requeue_after wait, q)
      else (result_stop, q)

  -- evaluateDeploymentStatus
  unfoldable pub evaluate_deployment_status : Eval → Pass → Deployment → SubReconcilerResult × Pass
  unfolding note_convergence note_serving serving_result note_not_serving not_serving_result
  evaluate_deployment_status e p d =
      let is_converged = deployment_converged d in
      let revision = at_or_empty d.annotations "deployment.kubernetes.io/revision" in
      let r = note_convergence e.env.now is_converged (sync_replicas p.resource d) d in
      if deployment_serving d
      then serving_result e is_converged d (
          check_ports e.env (record p { resource = note_serving e is_converged r revision })
            revision true)
      else not_serving_result e d
          (check_ports e.env (record p { resource = note_not_serving e r revision }) revision false)
