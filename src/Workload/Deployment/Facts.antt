-- ===== src/Workload/Deployment/Facts.antt =====
-- The tests on a Deployment against each other.
use cluster_agent.Prelude.{ℕ, ◌≡◌, ◌≤◌, ◌<◌, true, arith, max, ◌/◌}
use cluster_agent.Workload.Deployment.{
  Deployment, deployment_serving, deployment_converged, desired_replicas,
  max_unavailable_for_replicas,
}

-- A converged deployment serves, at its desired number of updated, ready and available replicas,
-- and has none unavailable.
pub deployment_converged_means :
    (d : Deployment)
    → deployment_converged d ≡ true
    → (deployment_serving d ≡ true)
      × (d.updated_replicas ≡ desired_replicas d.spec_replicas)
      × (d.ready_replicas ≡ desired_replicas d.spec_replicas)
      × (d.available_replicas ≡ desired_replicas d.spec_replicas)
      × (d.unavailable_replicas ≡ 0)
unfolding deployment_converged deployment_serving
deployment_converged_means d h = ground arith

-- A rolling update may take down a replica as soon as there are two, and never all of them: at
-- most a quarter, or one.
pub max_unavailable_for_replicas_bounds :
    (n : ℕ)
    → 0 < n
    → (max_unavailable_for_replicas n < n)
      × (1 < n → 1 ≤ max_unavailable_for_replicas n)
      × (max_unavailable_for_replicas n ≤ max 1 (n / 4))
unfolding max_unavailable_for_replicas
max_unavailable_for_replicas_bounds n h = ground arith
