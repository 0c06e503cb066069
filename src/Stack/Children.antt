-- ===== src/Stack/Children.antt =====
-- internal/controller/stack/aggregate.go, stage 1: one pass over the desired children.
pub mod Counts
pub mod Rollup
pub mod Converged
use cluster_agent.Prelude.{
  ℕ, zero, suc, ◌+◌, String, Bool, true, false, not, Option, some, none, List, [], ◌∷◌, ◌++◌, Map,
  lookup, insert, at_or_empty, contains, concat, length, is_empty, is_some, str_eq, sort_texts, ltb,
  ◌==◌, ◌&&◌, ◌||◌, if◌then◌else◌,
}
use cluster_agent.Api.Meta.{
  release_id_annotation, Condition, ConditionOps, is_cond_true, is_cond_false,
}
use cluster_agent.Api.Stack.{Stack, ResourceSummary}
use cluster_agent.Api.StackResource.{
  StackResource, StatusCondition, status_text, phase_unset, status_available, stalled, converged,
}
use cluster_agent.StackResource.StatusDerive.{revision_annotation}

pub record ChildConditions : Type 0 where
  pub converged : Option Condition
  pub available : Option Condition
  pub stalled : Option Condition

-- isTrue
abbrev pub is_true : Option Condition → Bool
is_true none = false
is_true (some c) = is_cond_true c.status

module _ ⦃ops : ConditionOps⦄ where
  -- findStatusCondition
  unfoldable pub find_status_condition : List Condition → ℕ → String → Option Condition
  find_status_condition conds generation cond_type = elim (ops.find_condition conds cond_type) [
    | none ↦ none
    | some cond ↦ if cond.observed_generation == generation then some cond else none
  ]

  -- currentChildConditions
  unfoldable pub current_child_conditions : StackResource → ChildConditions
  unfolding find_status_condition
  current_child_conditions child =
      let current = λ (t : StatusCondition).
        find_status_condition child.status.conditions child.metadata.generation (status_text t) in
      record {
        converged = current StatusCondition.converged;
        available = current status_available;
        stalled = current StatusCondition.stalled;
      }

abbrev pub revision_of : StackResource → String
revision_of child = at_or_empty child.metadata.annotations revision_annotation

abbrev pub release_of : StackResource → String
release_of child = at_or_empty child.metadata.annotations release_id_annotation

-- Whether the child counts as converged.
unfoldable pub counts_as_converged : StackResource → ChildConditions → Bool → String → Bool
unfolding at_or_empty
counts_as_converged child conds managed release_id =
    if managed
    then is_true conds.converged
      && not (str_eq (revision_of child) "")
      && str_eq child.status.observed_revision (revision_of child)
      && (str_eq release_id "" || str_eq (release_of child) release_id)
    else is_true conds.converged

abbrev pub reason_of : Option Condition → String
reason_of none = ""
reason_of (some c) = c.reason

not_available_message : Option Condition → String
unfolding concat
not_available_message none = "no current status from controller"
not_available_message (some c) =
    if is_cond_false c.status
    then concat ("not available: " ∷ c.reason ∷ [])
    else "resource is not yet available"

-- Why a child is not converged.
unfoldable pub not_converged_message : StackResource → ChildConditions → Bool → String → String
unfolding at_or_empty concat not_available_message
not_converged_message child conds managed release_id =
    let healthy = is_true conds.available in
    if managed && str_eq (revision_of child) ""
    then "no revision annotation (required for release-managed stacks)"
    else if managed && healthy && not (str_eq child.status.observed_revision (revision_of child))
    then "ready on a previous revision; latest revision not yet observed"
    else if managed
        && healthy
        && not (str_eq release_id "")
        && not (str_eq (release_of child) release_id)
    then "converged on a previous release; waiting for current release"
    else if is_true conds.stalled
    then concat ("resource is stalled: " ∷ reason_of conds.stalled ∷ [])
    else if healthy
    then "serving traffic but not fully converged"
    else not_available_message conds.available

-- childConvergence
unfoldable pub child_convergence : StackResource → ChildConditions → Bool → String → Bool × String
child_convergence child conds managed release_id =
    if counts_as_converged child conds managed release_id
    then (true, "")
    else (false, not_converged_message child conds managed release_id)

pub record ChildStats : Type 0 where
  pub summaries : List ResourceSummary
  pub missing : List String
  pub not_serving : List String
  pub stalled : List String
  pub orphans : List String
  pub converged_count : ℕ
  pub available_count : ℕ
  pub desired_count : ℕ

-- allDesiredServing
unfoldable pub all_desired_serving : ChildStats → Bool
all_desired_serving s =
    length s.missing == 0 && ltb 0 s.desired_count && s.available_count == s.desired_count

-- serving
unfoldable pub serving : ChildStats → Bool
serving s = length s.missing == 0 && length s.not_serving == 0

-- The summary of a desired name that no object has.
unfoldable pub missing_summary : String → ResourceSummary
missing_summary name = record {
  name = name;
  phase = phase_unset;
  observed_revision = "";
  converged_revision = "";
  last_converged = none;
  available_replicas = 0;
  updated_replicas = 0;
  replicas = 0;
  missing = true;
  message = "resource does not exist";
}

-- The summary of a child, with the outcome of `child_convergence`.
unfoldable pub child_summary : String → StackResource → Bool → Bool × String → ResourceSummary
unfolding at_or_empty
child_summary name child managed (is_converged, msg) = record {
  name = name;
  phase = child.status.phase;
  observed_revision = child.status.observed_revision;
  converged_revision = if is_converged && managed then revision_of child else "";
  last_converged = child.status.last_converged;
  available_replicas = child.status.available_replicas;
  updated_replicas = child.status.updated_replicas;
  replicas = child.status.replicas;
  missing = false;
  message = msg;
}

abbrev pub bump_if : Bool → ℕ → ℕ
bump_if true n = n + 1
bump_if false n = n

abbrev pub append_if : Bool → List String → String → List String
append_if true names name = names ++ name ∷ []
append_if false names name = names

module _ ⦃ops : ConditionOps⦄ where
  -- One round of the loop over spec.resourceNames.
  unfoldable pub visit : Bool → String → ChildStats → String → Option StackResource → ChildStats
  visit managed release_id stats name none = record stats {
    missing = stats.missing ++ name ∷ [];
    summaries = stats.summaries ++ missing_summary name ∷ [];
  }
  visit managed release_id stats name (some child) =
      let conds = current_child_conditions child in
      let convergence = child_convergence child conds managed release_id in
      record stats {
        converged_count = bump_if convergence.0 stats.converged_count;
        available_count = bump_if (is_true conds.available) stats.available_count;
        not_serving = append_if (not (is_true conds.available)) stats.not_serving name;
        stalled = append_if (is_true conds.stalled) stats.stalled name;
        summaries = stats.summaries ++ child_summary name child managed convergence ∷ [];
      }

  unfoldable pub visit_all :
      Bool → String → Map StackResource → ChildStats → List String → ChildStats
  visit_all managed release_id child_map stats [] = stats
  visit_all managed release_id child_map stats (name ∷ names) =
      visit_all managed release_id child_map
        (visit managed release_id stats name (lookup child_map name)) names

-- childMap: a later child of the same name replaces an earlier one.
unfoldable pub map_children : Map StackResource → List StackResource → Map StackResource
unfolding insert
map_children m [] = m
map_children m (child ∷ children) = map_children (insert m child.metadata.name child) children

-- The children that are no longer desired.
unfoldable pub orphans_of : List String → List StackResource → List String
unfolding contains
orphans_of desired [] = []
orphans_of desired (child ∷ children) =
    let rest = orphans_of desired children in
    if contains desired child.metadata.name then rest else child.metadata.name ∷ rest

unfoldable pub initial_stats : List String → ChildStats
initial_stats names = record {
  summaries = [];
  missing = [];
  not_serving = [];
  stalled = [];
  orphans = [];
  converged_count = 0;
  available_count = 0;
  desired_count = length names;
}

module _ ⦃ops : ConditionOps⦄ where
  -- collectChildStats
  unfoldable pub collect_child_stats : Stack → List StackResource → Bool → String → ChildStats
  collect_child_stats stack children managed release_id =
      let names = stack.spec.resource_names in
      let stats =
        visit_all managed release_id (map_children [] children) (initial_stats names) names in
      record stats {
        missing = sort_texts stats.missing;
        not_serving = sort_texts stats.not_serving;
        stalled = sort_texts stats.stalled;
        orphans = sort_texts (orphans_of names children);
      }
