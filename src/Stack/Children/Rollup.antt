-- ===== src/Stack/Children/Rollup.antt =====
-- What the counts of a pass say of the desired children.
use cluster_agent.Prelude.{
  ◌+◌, String, ◌≡◌, refl, Bool, true, List, [], ◌∷◌, ◌∙◌, sym, ap, Map, length, count_where, keep,
  All, length-keep, All-of_count_where, count_where_of_All, length-sort_texts, arith, ltb, ◌&&◌,
  ◌↔◌,
}
use cluster_agent.Api.Meta.{ConditionOps}
use cluster_agent.Api.Stack.{Stack}
use cluster_agent.Api.StackResource.{StackResource}
use cluster_agent.Stack.Children.{
  ChildStats, collect_child_stats, serving, all_desired_serving, orphans_of,
}
use cluster_agent.Stack.Children.Counts.{
  of_child, no_child, converged_child, available_child, unavailable_child, stalled_child, by_name,
  Counted, collect_child_stats-Counted,
}

module _ ⦃ops : ConditionOps⦄ where
  -- Every desired name is missing, present and not available, or present and available.
  three_ways :
      (m : Map StackResource) (names : List String)
      → count_where (of_child m available_child) names
          + count_where (of_child m unavailable_child) names
          + count_where (no_child m) names
        ≡ length names
  unfolding count_where
  three_ways m [] = refl
  three_ways m (name ∷ names) = ground (arith, three_ways m names)

  module _ (stack : Stack) (children : List StackResource) (managed : Bool)
      (release_id : String) where
    abbrev stats : ChildStats
    stats = collect_child_stats stack children managed release_id

    counted : Counted stack children managed release_id
    counted = collect_child_stats-Counted stack children managed release_id

    missing_length :
        length stats.missing ≡ count_where (no_child (by_name children)) stack.spec.resource_names
    missing_length =
        ap length counted.missing_is
        ∙ length-sort_texts (keep (no_child (by_name children)) stack.spec.resource_names)
        ∙ length-keep (no_child (by_name children)) stack.spec.resource_names

    not_serving_length :
        length stats.not_serving
        ≡ count_where (of_child (by_name children) unavailable_child) stack.spec.resource_names
    not_serving_length =
        ap length counted.not_serving_is
        ∙ length-sort_texts
            (keep (of_child (by_name children) unavailable_child) stack.spec.resource_names)
        ∙ length-keep (of_child (by_name children) unavailable_child) stack.spec.resource_names

    pub stalled_length :
        length stats.stalled
        ≡ count_where (of_child (by_name children) stalled_child) stack.spec.resource_names
    stalled_length =
        ap length counted.stalled_is
        ∙ length-sort_texts
            (keep (of_child (by_name children) stalled_child) stack.spec.resource_names)
        ∙ length-keep (of_child (by_name children) stalled_child) stack.spec.resource_names

    pub orphans_length :
        length stats.orphans ≡ length (orphans_of stack.spec.resource_names children)
    unfolding collect_child_stats
    orphans_length = length-sort_texts (orphans_of stack.spec.resource_names children)

    -- Each desired child is counted once: as available, as not serving or as missing.
    pub collect_child_stats_partition :
        stats.available_count + length stats.not_serving + length stats.missing
        ≡ stats.desired_count
    collect_child_stats_partition = omega (
      arith,
      counted.available_is,
      counted.desired_is,
      missing_length,
      not_serving_length,
      three_ways (by_name children) stack.spec.resource_names,
    )

    -- The converged count reaches the desired count exactly when every desired name stands for a
    -- child that counts as converged.
    pub converged_count_iff :
        (stats.converged_count ≡ stats.desired_count)
        ↔ All
            (λ name. of_child (by_name children) (converged_child managed release_id) name ≡ true)
            stack.spec.resource_names
    converged_count_iff =
        let p = of_child (by_name children) (converged_child managed release_id) in
        let ns = stack.spec.resource_names in
        (
          λ h. All-of_count_where p ns (sym counted.converged_is ∙ h ∙ counted.desired_is),
          λ h. counted.converged_is ∙ count_where_of_All p ns h ∙ sym counted.desired_is,
        )

    -- The two serving tests agree but for the empty stack, which serves vacuously and never counts
    -- as serving for the Degraded phase.
    pub all_desired_serving-serving :
        all_desired_serving stats ≡ (serving stats && ltb 0 stats.desired_count)
    unfolding all_desired_serving serving
    all_desired_serving-serving = ground (arith, collect_child_stats_partition)
