-- ===== src/Tests/Workloads.antt =====
-- A Deployment from its status to what a client reads, and whole passes.
use cluster_agent.Prelude.{
  ℕ, ◌≡◌, ◌≤◌, ◌<◌, ◌/◌, max, refl, true, false, not, is_some, none, some, [], ◌∷◌, ok, arith, ◌*◌,
}
use cluster_agent.Api.Meta.{cond_true, second}
use cluster_agent.Api.Meta.Listed.{listed}
use cluster_agent.Api.StackResource.{StackResource, Status}
use cluster_agent.Controller.SubReconciler.{Sub, result_continue, done}
use cluster_agent.StackResource.StatusDerive.{derive_summary_status}
use cluster_agent.StackResource.StatusDerive.Outcome.{outcome, table}
use cluster_agent.StackResource.Reconcile.{ApiCalls, PassState, reconcile_found, set_current_build}
use cluster_agent.StackResource.Reconcile.Writes.{
  stored, Derives, chain_end, reconcile_writes, reconcile_settles,
}
use cluster_agent.Workload.Readiness.{Pass}
use cluster_agent.Workload.Deployment.{
  Deployment, Eval, deployment_serving, deployment_converged, max_unavailable_for_replicas,
  evaluate_deployment_status,
}
use cluster_agent.Workload.Deployment.Facts.{max_unavailable_for_replicas_bounds}
use cluster_agent.Workload.Deployment.EndToEnd.{evaluate-outcome}
use cluster_agent.Tests.Samples.{web, no_verdicts, no_print}

-- Two replicas, both up.
abbrev two_up : Deployment
two_up = record {
  generation = 5;
  annotations = ("deployment.kubernetes.io/revision", "4") ∷ [];
  spec_replicas = some 2;
  observed_generation = 5;
  replicas = 2;
  updated_replicas = 2;
  ready_replicas = 2;
  available_replicas = 2;
  unavailable_replicas = 0;
  conditions =
      record {
        type = "Available";
        status = cond_true;
        reason = "MinimumReplicasAvailable";
        last_transition_time = 0;
      }
      ∷ [];
}

two_up_converged : deployment_converged two_up ≡ true
unfolding deployment_converged
two_up_converged = refl

max_unavailable_for_replicas_bounds_example :
    (max_unavailable_for_replicas 9 < 9)
    × (1 < 9 → 1 ≤ max_unavailable_for_replicas 9)
    × (max_unavailable_for_replicas 9 ≤ max 1 (9 / 4))
max_unavailable_for_replicas_bounds_example = max_unavailable_for_replicas_bounds 9 (omega arith)

abbrev eval : Eval
eval = record {
  env = record { now = 600 * second; configured_grace = 0; pod_ip = none };
  capture = λ r revision. [];
}

abbrev pass : Pass
pass = record { resource = web; verdicts = no_verdicts; verifier = none }

evaluate-outcome_example :
    let after = (evaluate_deployment_status ⦃ops = listed⦄ eval pass two_up).1 in
    outcome ⦃ops = listed⦄
      (derive_summary_status ⦃ops = listed⦄ no_print after.resource after.verdicts)
    ≡ table
        (is_some after.verdicts.failed)
        (not (deployment_serving two_up))
        (deployment_serving two_up)
        (deployment_converged two_up)
evaluate-outcome_example = evaluate-outcome ⦃ops = listed⦄ eval pass two_up no_print refl

-- A pass over a chain of one sub-reconciler that does nothing, with no build to read.
abbrev calls : ApiCalls
calls = record {
  get_resource = ok (some web);
  get_build = λ r. ok none;
  same_status = λ a b. false;
  update_status = λ r. none;
  print_hash = no_print;
}

abbrev steady : Sub (PassState ℕ)
steady s = (ok result_continue, s)

abbrev web_written : StackResource
web_written = derive_summary_status ⦃ops = listed⦄ no_print (set_current_build web none) no_verdicts

steady_writes :
    (reconcile_found ⦃ops = listed⦄ calls (steady ∷ []) 0 web).written ≡ some web_written
unfolding reconcile_found
steady_writes = refl

reconcile_writes_example :
    Derives ⦃ops = listed⦄ calls (chain_end ⦃ops = listed⦄ (steady ∷ []) 0 web) web_written
    × (calls.same_status web.status web_written.status ≡ false)
reconcile_writes_example =
    reconcile_writes ⦃ops = listed⦄ calls (steady ∷ []) 0 web web_written steady_writes

steady_ends : (reconcile_found ⦃ops = listed⦄ calls (steady ∷ []) 0 web).result ≡ ok done
unfolding reconcile_found
steady_ends = refl

no_status_same : (a b : Status) → calls.same_status a b ≡ true → a ≡ b
no_status_same a b h = ground arith

reconcile_settles_example :
    (w : StackResource) × Derives ⦃ops = listed⦄ calls
      (chain_end ⦃ops = listed⦄ (steady ∷ []) 0 web)
      w
    × (stored web.status (reconcile_found ⦃ops = listed⦄ calls (steady ∷ []) 0 web).written
        ≡ w.status)
reconcile_settles_example =
    reconcile_settles ⦃ops = listed⦄ calls (steady ∷ []) 0 web done no_status_same steady_ends
