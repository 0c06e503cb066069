-- ===== src/Workload/Deployment/Notes.antt =====
-- The conditions that evaluating a Deployment writes around the port checks.
use cluster_agent.Prelude.{String, ◌≡◌, refl, Bool, true, false, is_some, arith, []}
use cluster_agent.Api.Meta.{ConditionOps, Time, Duration}
use cluster_agent.Api.StackResource.{
  StackResource, DomainCondition, workload_available, workload_converged,
}
use cluster_agent.Controller.Verdict.{report_not_ready}
use cluster_agent.StackResource.Conditions.{domain_condition_true}
use cluster_agent.Workload.Readiness.{Pass}
use cluster_agent.Workload.Deployment.{
  Deployment, Eval, stamp_converged, capture_failure_details_once, note_convergence, note_serving,
  note_not_serving, serving_result, not_serving_result, set_failure,
}
use cluster_agent.Workload.Deployment.Ports.{true-set_resource}

module _ ⦃ops : ConditionOps⦄ where
  true-capture :
      (e : Eval) (r : StackResource) (revision : String) (d : DomainCondition)
      → domain_condition_true (capture_failure_details_once e r revision) d
        ≡ domain_condition_true r d
  unfolding capture_failure_details_once domain_condition_true
  true-capture e r revision d = ground arith

  true-stamp :
      (now : Time) (r : StackResource) (d : DomainCondition)
      → domain_condition_true (stamp_converged now r) d ≡ domain_condition_true r d
  unfolding stamp_converged domain_condition_true
  true-stamp now r d = ground arith

  true-set_failure :
      (r : StackResource) (d : DomainCondition)
      → domain_condition_true (set_failure r [] "") d ≡ domain_condition_true r d
  unfolding domain_condition_true
  true-set_failure r d = refl

  pub converged-note_convergence :
      (now : Time) (c : Bool) (r : StackResource) (d : Deployment)
      → domain_condition_true (note_convergence now c r d) workload_converged ≡ c
  unfolding note_convergence
  converged-note_convergence now true r d = simp (true-stamp, true-set_resource)
  converged-note_convergence now false r d = simp true-set_resource

  pub converged-note_serving :
      (e : Eval) (c : Bool) (r : StackResource) (revision : String)
      → domain_condition_true (note_serving e c r revision) workload_converged
        ≡ domain_condition_true r workload_converged
  unfolding note_serving
  converged-note_serving e true r revision = simp (true-set_failure, true-set_resource)
  converged-note_serving e false r revision = simp (true-capture, true-set_resource)

  pub available-note_serving :
      (e : Eval) (c : Bool) (r : StackResource) (revision : String)
      → domain_condition_true (note_serving e c r revision) workload_available ≡ true
  unfolding note_serving
  available-note_serving e true r revision = simp (true-set_failure, true-set_resource)
  available-note_serving e false r revision = simp (true-capture, true-set_resource)

  pub available-note_not_serving :
      (e : Eval) (r : StackResource) (revision : String)
      → domain_condition_true (note_not_serving e r revision) workload_available ≡ false
  unfolding note_not_serving
  available-note_not_serving e r revision = simp (true-capture, true-set_resource)

  pub converged-note_not_serving :
      (e : Eval) (r : StackResource) (revision : String)
      → domain_condition_true (note_not_serving e r revision) workload_converged
        ≡ domain_condition_true r workload_converged
  unfolding note_not_serving
  converged-note_not_serving e r revision = simp (true-capture, true-set_resource)

  pub pass-serving_result :
      (e : Eval) (c : Bool) (d : Deployment) (x : Duration × Pass)
      → (serving_result e c d x).1 ≡ x.1
  unfolding serving_result
  pass-serving_result e c d (t, p) = ground arith

  -- What evaluating a Deployment that does not serve changes after the port checks.
  abbrev pub gated : Pass → Pass
  gated p = record p {
    verdicts =
        report_not_ready p.verdicts "StackResourceDeploymentNotReady"
          "StackResourceDeploymentNotReady";
  }

  pub gated_gate : (p : Pass) → is_some (gated p).verdicts.not_ready ≡ true
  unfolding report_not_ready
  gated_gate p = ground arith

  pub pass-not_serving_result :
      (e : Eval) (d : Deployment) (x : Duration × Pass) → (not_serving_result e d x).1 ≡ gated x.1
  unfolding not_serving_result
  pass-not_serving_result e d (t, p) = ground arith
