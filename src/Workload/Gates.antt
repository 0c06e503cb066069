-- ===== src/Workload/Gates.antt =====
-- internal/controller/stackresource/workload/reconciler.go: the gates before a workload is
-- reconciled, and the dispatch by workload type.
-- The answers of the dependency checker and of the API, and the reconcilers of the workload types,
-- are arguments. An error of the volume check is only logged.
pub mod Outcome
use cluster_agent.Prelude.{
  String, Bool, true, false, not, Option, some, none, List, [], ◌∷◌, Result, ok, err, concat,
  if◌then◌else◌, ◌*◌,
}
use cluster_agent.Api.Meta.{Condition, ConditionOps, is_cond_true, Duration, second}
use cluster_agent.Api.StackResource.{
  StackResource, WorkloadType, service, stateful_service, worker, job, cron_job, unset, unknown,
  DomainCondition, dependencies_ready, build_ready,
}
use cluster_agent.Controller.Verdict.{report_not_ready}
use cluster_agent.Controller.SubReconciler.{SubReconcilerResult, result_stop, requeue_after}
use cluster_agent.StackResource.Conditions.{set_resource_condition}
use cluster_agent.StackResource.Reconcile.{ImageBuildView}
use cluster_agent.Workload.Readiness.{Pass}

abbrev pub default_requeue_time : Duration
default_requeue_time = 5 * second

-- How a workload reconciler ends.
abbrev pub Outcome : Type 0
Outcome = Result SubReconcilerResult × Pass

pub record GateCalls : Type 0 where
  pub dependencies_available : StackResource → Result (Bool × String)
  pub volume_mounts_ready : StackResource → Bool × String
  pub get_image_build : StackResource → Result ImageBuildView

pub record Dispatch : Type 0 where
  pub deployment : Pass → Outcome
  pub stateful_set : Pass → Outcome
  pub one_job : Pass → Outcome
  pub scheduled_job : Pass → Outcome

-- The switch over the workload type.
unfoldable pub dispatch : Dispatch → Pass → Outcome
unfolding concat
dispatch d p = by_type p.resource.spec.workload_type
  where
    by_type : WorkloadType → Outcome
    by_type service = d.deployment p
    by_type worker = d.deployment p
    by_type unset = d.deployment p
    by_type stateful_service = d.stateful_set p
    by_type job = d.one_job p
    by_type cron_job = d.scheduled_job p
    by_type (unknown t) = (err (concat ("unknown workload type: " ∷ t ∷ [])), p)

module _ ⦃ops : ConditionOps⦄ where
  -- A gate that stays closed: its condition is False and the pass is not ready.
  unfoldable pub close_gate : Pass → DomainCondition → String × String → String × String → Pass
  close_gate p t (reason, msg) (verdict_reason, verdict_msg) = record p {
    resource = set_resource_condition p.resource t false reason msg;
    verdicts = report_not_ready p.verdicts verdict_reason verdict_msg;
  }

  unfoldable pub open_gate : Pass → DomainCondition → String × String → Pass
  open_gate p t (reason, msg) = record p {
    resource = set_resource_condition p.resource t true reason msg;
  }

  abbrev is_available : Option Condition → Bool
  is_available none = false
  is_available (some c) = is_cond_true c.status

  -- imageBuildComplete
  unfoldable pub image_build_complete : ImageBuildView → Bool
  image_build_complete b = is_available (ops.find_condition b.conditions "Available")

  unfoldable pub after_complete : Dispatch → Pass → Bool → Outcome
  unfolding close_gate open_gate
  after_complete d p true =
      dispatch d (open_gate p build_ready ("BuildReady", "application build complete"))
  after_complete d p false = (
    ok result_stop,
    close_gate p build_ready ("BuildNotReady", "application build is not yet ready")
        ("ApplicationBuildNotYetReady", "Application build is not yet ready"),
  )

  unfoldable pub after_get_build : Dispatch → Pass → Result ImageBuildView → Outcome
  unfolding after_complete image_build_complete
  after_get_build d p (err e) = (err e, p)
  after_get_build d p (ok b) = after_complete d p (image_build_complete b)

  -- The gate of the image build, for resources that are built from source.
  unfoldable pub build_gate : GateCalls → Dispatch → Pass → Outcome
  unfolding after_get_build
  build_gate g d p = elim p.resource.spec.build_spec [
    | none ↦ dispatch d p
    | some b ↦ after_get_build d p (g.get_image_build p.resource)
  ]

  unfoldable pub after_volumes : GateCalls → Dispatch → Pass → Bool × String → Outcome
  unfolding build_gate
  after_volumes g d p (false, msg) = (
    ok (requeue_after default_requeue_time),
    close_gate p dependencies_ready ("VolumeMountsNotReady", msg) ("VolumeMountsNotReady", msg),
  )
  after_volumes g d p (true, msg) =
      build_gate g d (
        open_gate p dependencies_ready
          ("DependenciesReady", "dependencies and volume mounts ready"))

  unfoldable pub after_dependencies : GateCalls → Dispatch → Pass → Result (Bool × String) → Outcome
  unfolding after_volumes
  after_dependencies g d p (err e) = (err e, p)
  after_dependencies g d p (ok (false, msg)) = (
    ok (requeue_after default_requeue_time),
    close_gate p dependencies_ready ("DependenciesNotReady", msg) ("DependenciesNotReady", msg),
  )
  after_dependencies g d p (ok (true, msg)) = after_volumes g d p (g.volume_mounts_ready p.resource)

  -- Reconcile
  unfoldable pub reconcile_workload : GateCalls → Dispatch → Pass → Outcome
  unfolding after_dependencies
  reconcile_workload g d p = after_dependencies g d p (g.dependencies_available p.resource)
