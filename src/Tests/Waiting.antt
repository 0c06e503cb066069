-- ===== src/Tests/Waiting.antt =====
-- A resource that waits for another one.
use cluster_agent.Prelude.{
  ◌≡◌, refl, true, List, [], ◌∷◌, ok, err, All, keep, contains, concat, length,
}
use cluster_agent.Api.Meta.{cond_true, is_condition_true}
use cluster_agent.Api.Meta.Listed.{listed}
use cluster_agent.Api.StackResource.{StackResource}
use cluster_agent.StackResource.Conditions.{stack_resource_available}
use cluster_agent.StackResource.Dependencies.{
  is_dependency, get_dependencies, all_available, dependencies_available,
}
use cluster_agent.StackResource.Dependencies.Means.{dependencies_available_means}
use cluster_agent.Tests.Samples.{web}

abbrev db : StackResource
db = record web {
  metadata = record web.metadata { name = "db" };
  status = record web.status {
    conditions =
        record {
          type = "Available";
          status = cond_true;
          observed_generation = 3;
          reason = "Available";
          message = "";
        }
        ∷ [];
  };
}

abbrev shop_web : StackResource
shop_web = record web { spec = record web.spec { depends_on = "db" ∷ [] } }

abbrev resources : List StackResource
resources = shop_web ∷ db ∷ []

db_is_there : dependencies_available ⦃ops = listed⦄ (ok resources) shop_web ≡ ok (true, "")
unfolding dependencies_available get_dependencies all_available stack_resource_available
    is_condition_true keep contains concat listed
db_is_there = refl

db_is_missing :
    dependencies_available ⦃ops = listed⦄ (ok (shop_web ∷ [])) shop_web
    ≡ err "missing workspace resource deps"
unfolding dependencies_available get_dependencies all_available stack_resource_available
    is_condition_true keep contains concat listed
db_is_missing = refl

dependencies_available_means_example :
    (length (keep (is_dependency shop_web) resources) ≡ 1)
    × All
        (λ sr. is_dependency shop_web sr ≡ true → stack_resource_available ⦃ops = listed⦄ sr ≡ true)
        resources
dependencies_available_means_example =
    dependencies_available_means ⦃ops = listed⦄ shop_web resources "" refl db_is_there
