-- ===== src/Tests/Gates.antt =====
-- The gates of a workload whose dependencies are not available.
use cluster_agent.Prelude.{true, false, none, ok, err}
use cluster_agent.Api.Meta.Listed.{listed}
use cluster_agent.Workload.Readiness.{Pass}
use cluster_agent.Workload.Gates.{GateCalls, reconcile_workload}
use cluster_agent.Workload.Gates.Outcome.{Gated, reconcile_workload-Gated}
use cluster_agent.Tests.Samples.{web, no_verdicts}

abbrev waiting : GateCalls
waiting = record {
  dependencies_available = λ r. ok (false, "database is not available");
  volume_mounts_ready = λ r. (true, "");
  get_image_build = λ r. err "not found";
}

abbrev fresh : Pass
fresh = record { resource = web; verdicts = no_verdicts; verifier = none }

reconcile_workload-Gated_example :
    Gated ⦃ops = listed⦄ waiting web (λ d. reconcile_workload ⦃ops = listed⦄ waiting d fresh)
reconcile_workload-Gated_example = reconcile_workload-Gated ⦃ops = listed⦄ waiting fresh
