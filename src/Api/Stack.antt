-- ===== src/Api/Stack.antt =====
-- api/core/v1alpha1/stack_types.go: the Stack object.
use cluster_agent.Prelude.{ℕ, String, Bool, Option, List}
use cluster_agent.Api.Meta.{Condition, ObjectMeta, Time}
use cluster_agent.Api.StackResource

pub data StackPhase : Type 0 where
  stack_ready stack_pending stack_failed stack_degraded stack_progressing stack_phase_unset :
      StackPhase

pub data StackCondition : Type 0 where
  available converged resources_ready stalled degraded progressing : StackCondition

-- `string(condType)`
abbrev pub stack_condition_text : StackCondition → String
stack_condition_text available = "Available"
stack_condition_text converged = "Converged"
stack_condition_text resources_ready = "ResourcesReady"
stack_condition_text stalled = "Stalled"
stack_condition_text degraded = "Degraded"
stack_condition_text progressing = "Progressing"

-- The names of the desired children. The CRD makes them a set.
pub record StackSpec : Type 0 where
  pub resource_names : List String

pub record ResourceSummary : Type 0 where
  pub name : String
  pub phase : StackResource.Phase
  pub observed_revision : String
  pub converged_revision : String
  pub last_converged : Option StackResource.ConvergenceRecord
  pub available_replicas : ℕ
  pub updated_replicas : ℕ
  pub replicas : ℕ
  pub missing : Bool
  pub message : String

pub record StackConvergenceRecord : Type 0 where
  pub revision : String
  pub release_id : String
  pub at : Time

pub record StackStatus : Type 0 where
  pub observed_generation : ℕ
  pub target_revision : String
  pub last_converged : Option StackConvergenceRecord
  pub phase : StackPhase
  pub conditions : List Condition
  pub resources : List ResourceSummary
  pub orphaned_resources : List String
  pub status_hash : String

pub record Stack : Type 0 where
  pub metadata : ObjectMeta
  pub spec : StackSpec
  pub status : StackStatus

-- StatusHash prints the status with its own hash cleared; the printing is the parameter.
unfoldable pub stack_status_hash : (StackStatus → String) → Stack → String
stack_status_hash print_hash w = print_hash (record w.status { status_hash = "" })
