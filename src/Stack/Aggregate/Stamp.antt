-- ===== src/Stack/Aggregate/Stamp.antt =====
-- When a Stack's convergence is recorded, and aggregating again.
use cluster_agent.Prelude.{
  String, ◌≡◌, refl, ap, Bool, true, false, Option, some, none, List, arith, length, eq_iff, ◌==◌,
  ◌&&◌,
}
use cluster_agent.Api.Meta.{ConditionOps, Time}
use cluster_agent.Api.Stack.{Stack, StackConvergenceRecord}
use cluster_agent.Api.StackResource.{StackResource}
use cluster_agent.Stack.Children.{collect_child_stats}
use cluster_agent.Stack.Aggregate.{aggregate_stack_status, stamp_last_converged, choose_phase}
use cluster_agent.Stack.State.{derive_state}
use cluster_agent.Stack.Aggregate.Phases.{is_managed, release, root_revision}

-- A stamp that has just been made, or kept, is kept.
stamp_again :
    (b : Bool) (now later : Time) (rev rel : String) (lc : Option StackConvergenceRecord)
    → stamp_last_converged b later rev rel (stamp_last_converged b now rev rel lc)
      ≡ stamp_last_converged b now rev rel lc
unfolding stamp_last_converged
stamp_again false now later rev rel lc = refl
stamp_again true now later rev rel none = ground (arith, eq_iff rev rev, eq_iff rel rel)
stamp_again true now later rev rel (some lc) =
    ground (arith, eq_iff rev rev, eq_iff rel rel, eq_iff lc.revision rev, eq_iff lc.release_id rel)

module _ ⦃ops : ConditionOps⦄ (now later : Time) (stack : Stack)
    (children : List StackResource) where
  -- The Stack whose status was written by the first aggregation.
  abbrev stored : Stack
  stored = record stack { status = aggregate_stack_status now stack children }

  -- Aggregating again at any later time, over the status that was just written, keeps the
  -- recorded convergence with its first time, and changes neither the phase nor the summaries nor
  -- the list of orphans.
  pub aggregate_again :
      let first = aggregate_stack_status now stack children in
      let second = aggregate_stack_status later stored children in
      (second.last_converged ≡ first.last_converged)
      × (second.phase ≡ first.phase)
      × (second.resources ≡ first.resources)
      × (second.orphaned_resources ≡ first.orphaned_resources)
  unfolding aggregate_stack_status collect_child_stats
  aggregate_again =
      let rev = root_revision now stack children in
      let managed = is_managed now stack children in
      let rel = release now stack children in
      let stats = collect_child_stats stack children managed rel in
      let done = stats.converged_count == stats.desired_count in
      let conv = done && length stats.orphans == 0 in
      let same = stamp_again (conv && managed) now later rev rel stack.status.last_converged in
      (same, ap (λ lc. choose_phase (derive_state stats done managed rev lc) conv) same, refl, refl)
