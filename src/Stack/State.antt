-- ===== src/Stack/State.antt =====
-- internal/controller/stack/aggregate.go, stage 2: the condition booleans and explanations.
use cluster_agent.Prelude.{
  String, Bool, true, not, Option, some, none, [], ◌∷◌, concat, join, length, is_some, str_eq, ltb,
  ◌==◌, ◌&&◌, ◌||◌, if◌then◌else◌,
}
use cluster_agent.Api.Stack.{StackConvergenceRecord}
use cluster_agent.Stack.Children.{ChildStats, all_desired_serving}

pub record StackState : Type 0 where
  pub stalled : Bool
  pub progressing : Bool
  pub degraded : Bool
  pub progressing_reason : String
  pub progressing_message : String
  pub not_ready_reason : String
  pub not_ready_message : String
  pub not_converged_reason : String
  pub not_converged_message : String
  pub not_serving_reason : String
  pub not_serving_message : String

-- `lc == nil || lc.Revision != rootRev`
abbrev pub not_yet_converged_on : Option StackConvergenceRecord → String → Bool
not_yet_converged_on none root_rev = true
not_yet_converged_on (some lc) root_rev = not (str_eq lc.revision root_rev)

-- deriveState
unfoldable pub derive_state :
    ChildStats → Bool → Bool → String → Option StackConvergenceRecord → StackState
unfolding concat join all_desired_serving
derive_state stats resources_converged managed root_rev lc =
    let is_stalled = ltb 0 (length stats.stalled) in
    let orphan_cleanup = resources_converged && ltb 0 (length stats.orphans) && not is_stalled in
    let is_missing = ltb 0 (length stats.missing) in
    let missing_message = concat ("missing resources: " ∷ join stats.missing ", " ∷ []) in
    let not_ready : String × String =
      if is_missing
      then ("MissingResources", missing_message)
      else if is_stalled
      then ("ResourceStalled", concat ("stalled resources: " ∷ join stats.stalled ", " ∷ []))
      else ("ResourcesNotReady", "not all resources are converged") in
    let not_converged : String × String =
      if ltb 0 (length stats.orphans) && resources_converged
      then (
        "OrphanedResources",
        concat ("orphaned resources not in spec.resourceNames: " ∷ join stats.orphans ", " ∷ []),
      )
      else not_ready in
    let not_serving : String × String =
      if is_missing
      then ("MissingResources", missing_message)
      else if ltb 0 (length stats.not_serving)
      then (
        "ResourcesNotServing",
        concat ("resources not serving: " ∷ join stats.not_serving ", " ∷ []),
      )
      else ("ResourcesNotServing", "not all resources are serving traffic") in
    record {
      stalled = is_stalled;
      progressing =
          orphan_cleanup
          || (not resources_converged
              && length stats.missing == 0
              && not is_stalled
              && (not managed || not_yet_converged_on lc root_rev));
      degraded =
          all_desired_serving stats && not resources_converged && not is_stalled && is_some lc;
      progressing_reason = if orphan_cleanup then "OrphanCleanup" else "RolloutInProgress";
      progressing_message =
          if orphan_cleanup
          then concat
              ("waiting for orphaned resources to be deleted: " ∷ join stats.orphans ", " ∷ [])
          else "rollout in progress";
      not_ready_reason = not_ready.0;
      not_ready_message = not_ready.1;
      not_converged_reason = not_converged.0;
      not_converged_message = not_converged.1;
      not_serving_reason = not_serving.0;
      not_serving_message = not_serving.1;
    }
