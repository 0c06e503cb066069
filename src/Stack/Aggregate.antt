-- ===== src/Stack/Aggregate.antt =====
-- internal/controller/stack/aggregate.go, stage 3: the status of a Stack.
pub mod Phases
pub mod Conditions
pub mod Stamp
use cluster_agent.Prelude.{
  ℕ, String, Bool, true, false, not, Option, some, none, List, length, at_or_empty, str_eq, ◌==◌,
  ◌&&◌, ◌||◌, if◌then◌else◌,
}
use cluster_agent.Api.Meta.{release_id_annotation, Condition, ConditionOps, Time, status_of_bool}
use cluster_agent.Api.Stack.{
  Stack, StackStatus, StackPhase, StackCondition, StackConvergenceRecord, stack_condition_text,
  stack_ready, stack_pending, stack_failed, stack_degraded, stack_progressing, stack_phase_unset,
  available, converged, resources_ready, stalled, degraded, progressing,
}
use cluster_agent.Api.StackResource.{StackResource}
use cluster_agent.StackResource.StatusDerive.{revision_annotation}
use cluster_agent.Stack.Children.{ChildStats, collect_child_stats, serving}
use cluster_agent.Stack.State.{StackState, derive_state}

-- The record is stamped once for each revision and release.
unfoldable pub stamp_last_converged :
    Bool → Time → String → String → Option StackConvergenceRecord → Option StackConvergenceRecord
stamp_last_converged false now root_rev release_id lc = lc
stamp_last_converged true now root_rev release_id none =
    some (record { revision = root_rev; release_id = release_id; at = now })
stamp_last_converged true now root_rev release_id (some lc) =
    if not (str_eq lc.revision root_rev) || not (str_eq lc.release_id release_id)
    then some (record { revision = root_rev; release_id = release_id; at = now })
    else some lc

-- The switch over the phases.
unfoldable pub choose_phase : StackState → Bool → StackPhase
choose_phase state is_converged =
    if state.stalled
    then stack_failed
    else if state.progressing
    then stack_progressing
    else if state.degraded
    then stack_degraded
    else if is_converged
    then stack_ready
    else stack_pending

module _ ⦃ops : ConditionOps⦄ where
  -- setStackCondition
  unfoldable pub set_stack_condition :
      ℕ → StackCondition → Bool → String → String → List Condition → List Condition
  set_stack_condition generation cond_type is_set reason msg conditions =
      ops.set_condition conditions (record {
        type = stack_condition_text cond_type;
        status = status_of_bool is_set;
        observed_generation = generation;
        reason = reason;
        message = msg;
      })

  -- Each condition is written once, with the text of its branch.
  unfoldable pub write_condition :
      ℕ
      → StackCondition
      → Bool
      → String × String
      → String × String
      → List Condition
      → List Condition
  unfolding set_stack_condition
  write_condition generation cond_type is_set (yes_reason, yes_msg) (no_reason, no_msg) conditions =
      if is_set
      then set_stack_condition generation cond_type true yes_reason yes_msg conditions
      else set_stack_condition generation cond_type false no_reason no_msg conditions

  unfoldable pub write_conditions :
      ℕ → StackState → Bool → Bool → Bool → List Condition → List Condition
  write_conditions generation state all_converged is_serving is_converged conditions =
      let c1 =
        write_condition generation stalled state.stalled
          ("ResourceStalled", state.not_ready_message) ("NotStalled", "no stalled resources")
          conditions in
      let c2 =
        write_condition generation resources_ready all_converged
          ("AllResourcesReady", "all resources converged")
          (state.not_ready_reason, state.not_ready_message) c1 in
      let c3 =
        write_condition generation available is_serving
          ("AllResourcesServing", "all resources serving traffic")
          (state.not_serving_reason, state.not_serving_message) c2 in
      let c4 =
        write_condition generation converged is_converged
          ("AllResourcesConverged", "all resources converged and no orphaned resources")
          (state.not_converged_reason, state.not_converged_message) c3 in
      let c5 =
        write_condition generation degraded state.degraded
          ("ServingButNotConverged", "all children serving traffic but not all fully converged")
          ("NotDegraded", "not degraded") c4 in
      write_condition generation progressing state.progressing
        (state.progressing_reason, state.progressing_message)
        ("NotProgressing", "no active rollout") c5

  -- aggregateStackStatus at the time `now`.
  unfoldable pub aggregate_stack_status : Time → Stack → List StackResource → StackStatus
  unfolding stamp_last_converged
  aggregate_stack_status now stack children =
      let root_rev = at_or_empty stack.metadata.annotations revision_annotation in
      let managed = not (str_eq root_rev "") in
      let release_id = at_or_empty stack.metadata.annotations release_id_annotation in
      let stats = collect_child_stats stack children managed release_id in
      let all_converged = stats.converged_count == stats.desired_count in
      let is_converged = all_converged && length stats.orphans == 0 in
      let last_converged =
        stamp_last_converged (is_converged && managed) now root_rev release_id
          stack.status.last_converged in
      let state = derive_state stats all_converged managed root_rev last_converged in
      record {
        observed_generation = stack.metadata.generation;
        target_revision = if managed then root_rev else "";
        last_converged = last_converged;
        phase = choose_phase state is_converged;
        conditions =
            write_conditions stack.metadata.generation state all_converged (serving stats)
              is_converged stack.status.conditions;
        resources = stats.summaries;
        orphaned_resources = stats.orphans;
        status_hash = "";
      }
