-- ===== src/StackResource/Dependencies/Means.antt =====
-- What an answer of the dependency checker says of the listed resources.
use cluster_agent.Prelude.{
  ◌≡◌, String, Bool, true, false, List, [], ◌∷◌, All, keep, is_empty, length, ok, arith,
}
use cluster_agent.Api.Meta.{ConditionOps}
use cluster_agent.Api.StackResource.{StackResource}
use cluster_agent.StackResource.Conditions.{stack_resource_available}
use cluster_agent.StackResource.Dependencies.{
  is_dependency, get_dependencies, all_available, dependencies_available,
}

module _ {A : Type 0} (p q : A → Bool) where
  -- What holds of all that a loop keeps.
  All-of_keep :
      (xs : List A) → All (λ x. q x ≡ true) (keep p xs) → All (λ x. p x ≡ true → q x ≡ true) xs
  unfolding keep
  All-of_keep [] h = tt
  All-of_keep (x ∷ xs) h = ground (arith, h, All-of_keep xs)

module _ ⦃ops : ConditionOps⦄ (resource : StackResource) where
  all_available_means :
      (deps : List StackResource)
      → (all_available deps).0 ≡ true
      → All (λ dep. stack_resource_available dep ≡ true) deps
  unfolding all_available
  all_available_means [] h = tt
  all_available_means (dep ∷ deps) h = ground (arith, h, all_available_means deps)

  -- Where the dependencies of a resource that has some are reported as available, every listed
  -- resource that it depends on is available, and there are as many of those as it names.
  pub dependencies_available_means :
      (listed : List StackResource) (m : String)
      → is_empty resource.spec.depends_on ≡ false
      → dependencies_available (ok listed) resource ≡ ok (true, m)
      → (length (keep (is_dependency resource) listed) ≡ length resource.spec.depends_on)
        × All (λ sr. is_dependency resource sr ≡ true → stack_resource_available sr ≡ true) listed
  unfolding dependencies_available get_dependencies
  dependencies_available_means listed m some_named h =
      let deps = keep (is_dependency resource) listed in
      let answer : (length deps ≡ length resource.spec.depends_on)
          × ((all_available deps).0 ≡ true) =
        ground (arith, some_named, h) in
      (
        answer.0,
        All-of_keep (is_dependency resource) stack_resource_available listed
            (all_available_means deps answer.1),
      )
