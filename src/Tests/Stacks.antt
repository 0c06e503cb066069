-- ===== src/Tests/Stacks.antt =====
-- The status of a Stack on samples.
use cluster_agent.Prelude.{◌+◌, true, [], ◌∷◌, ◌≡◌, ◌≢◌, ◌↔◌, length, count_where, List}
use cluster_agent.Api.Meta.Listed.{listed}
use cluster_agent.Api.Stack.{stack_ready, stack_failed}
use cluster_agent.Api.StackResource.{StackResource}
use cluster_agent.Stack.Children.{ChildStats, collect_child_stats}
use cluster_agent.Stack.Children.Counts.{of_child, by_name, stalled_child}
use cluster_agent.Stack.Children.Rollup.{collect_child_stats_partition}
use cluster_agent.Stack.Aggregate.{aggregate_stack_status}
use cluster_agent.Stack.Aggregate.Phases.{AllDone, aggregate_ready_iff, aggregate_failed_iff}
use cluster_agent.Stack.Aggregate.Conditions.{Coherent, readout, aggregate-Coherent}
use cluster_agent.Stack.Aggregate.Stamp.{aggregate_again}
use cluster_agent.StackResource.StatusDerive.{derive_summary_status}
use cluster_agent.Tests.Samples.{shop, web, failed_verdicts, no_print}

abbrev stalled_web : StackResource
stalled_web = derive_summary_status ⦃ops = listed⦄ no_print web failed_verdicts

abbrev children : List StackResource
children = stalled_web ∷ []

abbrev stats : ChildStats
stats = collect_child_stats ⦃ops = listed⦄ shop children true ""

collect_child_stats_partition_example :
    stats.available_count + length stats.not_serving + length stats.missing ≡ stats.desired_count
collect_child_stats_partition_example =
    collect_child_stats_partition ⦃ops = listed⦄ shop children true ""

aggregate_ready_iff_example :
    ((aggregate_stack_status ⦃ops = listed⦄ 5 shop children).phase ≡ stack_ready)
    ↔ AllDone ⦃ops = listed⦄ 5 shop children
aggregate_ready_iff_example = aggregate_ready_iff ⦃ops = listed⦄ 5 shop children

aggregate_failed_iff_example :
    ((aggregate_stack_status ⦃ops = listed⦄ 5 shop children).phase ≡ stack_failed)
    ↔ (count_where (of_child (by_name children) (stalled_child ⦃ops = listed⦄)) ("web" ∷ []) ≢ 0)
aggregate_failed_iff_example = aggregate_failed_iff ⦃ops = listed⦄ 5 shop children

aggregate-Coherent_example :
    let s = aggregate_stack_status ⦃ops = listed⦄ 5 shop children in
    Coherent s.phase (readout ⦃ops = listed⦄ 2 s.conditions)
aggregate-Coherent_example = aggregate-Coherent ⦃ops = listed⦄ 5 shop children

aggregate_again_example :
    let first = aggregate_stack_status ⦃ops = listed⦄ 5 shop children in
    let second =
      aggregate_stack_status ⦃ops = listed⦄ 9 (record shop { status = first }) children in
    (second.last_converged ≡ first.last_converged)
    × (second.phase ≡ first.phase)
    × (second.resources ≡ first.resources)
    × (second.orphaned_resources ≡ first.orphaned_resources)
aggregate_again_example = aggregate_again ⦃ops = listed⦄ 5 9 shop children
