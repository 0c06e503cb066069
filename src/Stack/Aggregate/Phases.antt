-- ===== src/Stack/Aggregate/Phases.antt =====
-- What the phase of a Stack says of its children.
use cluster_agent.Prelude.{
  String, ◌≡◌, ◌≢◌, ◌↔◌, ◌∙◌, sym, refl, Bool, true, false, not, Option, List, [], ◌∷◌, All,
  count_where, count_where_zero, length, contains, arith, at_or_empty, str_eq, ◌==◌, ◌&&◌,
}
use cluster_agent.Api.Meta.{release_id_annotation, ConditionOps, Time}
use cluster_agent.Api.Stack.{Stack, StackPhase, StackConvergenceRecord, stack_ready, stack_failed}
use cluster_agent.Api.StackResource.{StackResource}
use cluster_agent.StackResource.StatusDerive.{revision_annotation}
use cluster_agent.Stack.Children.{ChildStats, collect_child_stats, orphans_of}
use cluster_agent.Stack.Children.Counts.{of_child, by_name, stalled_child}
use cluster_agent.Stack.Children.Rollup.{converged_count_iff, stalled_length, orphans_length}
use cluster_agent.Stack.Children.Converged.{HasConverged, All-HasConverged}
use cluster_agent.Stack.State.{derive_state}
use cluster_agent.Stack.Aggregate.{choose_phase, aggregate_stack_status, stamp_last_converged}

-- The phase of a Stack from its statistics.
abbrev phase_from : ChildStats → Bool → Bool → String → Option StackConvergenceRecord → StackPhase
phase_from stats done managed rev lc =
    choose_phase (derive_state stats done managed rev lc) (done && length stats.orphans == 0)

ready_from :
    (stats : ChildStats) (done managed : Bool) (rev : String) (lc : Option StackConvergenceRecord)
    → (phase_from stats done managed rev lc ≡ stack_ready)
      ↔ ((done ≡ true) × (length stats.orphans ≡ 0) × (length stats.stalled ≡ 0))
unfolding choose_phase derive_state
ready_from stats done managed rev lc = ground arith

failed_from :
    (stats : ChildStats) (done managed : Bool) (rev : String) (lc : Option StackConvergenceRecord)
    → (phase_from stats done managed rev lc ≡ stack_failed) ↔ (length stats.stalled ≢ 0)
unfolding choose_phase derive_state
failed_from stats done managed rev lc = ground arith

-- No child is left over exactly when every child is desired.
no_orphans_iff :
    (desired : List String) (children : List StackResource)
    → (length (orphans_of desired children) ≡ 0)
      ↔ All (λ child. contains desired child.metadata.name ≡ true) children
unfolding orphans_of
no_orphans_iff desired [] = (λ h. tt, λ h. refl)
no_orphans_iff desired (child ∷ children) = ground (arith, no_orphans_iff desired children)

module _ ⦃ops : ConditionOps⦄ (now : Time) (stack : Stack) (children : List StackResource) where
  abbrev pub root_revision : String
  root_revision = at_or_empty stack.metadata.annotations revision_annotation

  abbrev pub release : String
  release = at_or_empty stack.metadata.annotations release_id_annotation

  abbrev pub is_managed : Bool
  is_managed = not (str_eq root_revision "")

  abbrev stats : ChildStats
  stats = collect_child_stats stack children is_managed release

  abbrev pub desired : List String
  desired = stack.spec.resource_names

  abbrev done : Bool
  done = stats.converged_count == stats.desired_count

  -- What the phase Ready promises of the children.
  pub record AllDone : Type 0 where
    pub each_converged : All (HasConverged is_managed release (by_name children)) desired
    pub none_left_over : All (λ child. contains desired child.metadata.name ≡ true) children
    pub none_stalled : All (λ name. of_child (by_name children) stalled_child name ≡ false) desired

  done_iff : (done ≡ true) ↔ (stats.converged_count ≡ stats.desired_count)
  done_iff = ground arith

  counts_iff : ((done ≡ true) × (length stats.orphans ≡ 0) × (length stats.stalled ≡ 0)) ↔ AllDone
  counts_iff = (
    λ (d, o, s). record {
      each_converged =
          (All-HasConverged is_managed release (by_name children) desired).0
            ((converged_count_iff stack children is_managed release).0 (done_iff.0 d));
      none_left_over =
          (no_orphans_iff desired children).0
            (sym (orphans_length stack children is_managed release) ∙ o);
      none_stalled =
          (count_where_zero (of_child (by_name children) stalled_child) desired).0
            (sym (stalled_length stack children is_managed release) ∙ s);
    },
    λ a. (
      done_iff.1 (
          (converged_count_iff stack children is_managed release).1
            ((All-HasConverged is_managed release (by_name children) desired).1 a.each_converged)),
      orphans_length stack children is_managed release
          ∙ (no_orphans_iff desired children).1 a.none_left_over,
      stalled_length stack children is_managed release
          ∙ (count_where_zero (of_child (by_name children) stalled_child) desired).1 a.none_stalled,
    ),
  )

  -- A Stack is Ready exactly when every desired name stands for a child that has converged, no
  -- desired child is stalled, and there is no child that is not desired. A child has converged
  -- when its Converged condition is True at its generation and, on a Stack that has a revision, it
  -- has observed the revision that it carries itself and carries the release of the Stack, if that
  -- has one; the revision of the child is not compared with that of the Stack.
  pub aggregate_ready_iff :
      ((aggregate_stack_status now stack children).phase ≡ stack_ready) ↔ AllDone
  unfolding aggregate_stack_status
  aggregate_ready_iff =
      let f = ready_from stats done is_managed root_revision (
        stamp_last_converged (done && length stats.orphans == 0 && is_managed) now root_revision
          release stack.status.last_converged) in
      (λ h. counts_iff.0 (f.0 h), λ a. f.1 (counts_iff.1 a))

  -- A Stack is Failed exactly when some desired child is stalled at its current generation,
  -- whatever else holds of the others.
  pub aggregate_failed_iff :
      ((aggregate_stack_status now stack children).phase ≡ stack_failed)
      ↔ (count_where (of_child (by_name children) stalled_child) desired ≢ 0)
  unfolding aggregate_stack_status
  aggregate_failed_iff =
      let f = failed_from stats done is_managed root_revision (
        stamp_last_converged (done && length stats.orphans == 0 && is_managed) now root_revision
          release stack.status.last_converged) in
      let e = stalled_length stack children is_managed release in
      (λ h z. f.0 h (e ∙ z), λ n. f.1 (λ z. n (sym e ∙ z)))
