-- ===== src/Api/StackResource.antt =====
-- api/core/v1alpha1/stack_resource_types.go: the StackResource object, its status and methods.
mod Desired
unfoldable pub use Desired.*
use cluster_agent.Prelude.{
  ℕ, String, Bool, true, false, Option, some, none, List, [], ◌∷◌, concat, is_some, ◌==◌,
  find_first, exists, map, ◌||◌, if◌then◌else◌,
}
use cluster_agent.Api.Meta.{Condition, ObjectMeta, Time}
use Desired.{Spec, Port, BuildSpec}

-- `phase_unset` is the empty text of a status that was never derived.
pub data Phase : Type 0 where
  pending ready degraded failed phase_unset : Phase

-- Conditions that a sub-reconciler owns: StackResourceDomainCondition.
pub data DomainCondition : Type 0 where
  tls_configured dependencies_ready build_ready pre_deploy_complete : DomainCondition
  workload_available workload_converged ingress_ready : DomainCondition

-- Conditions that only the status derivation writes: StackResourceStatusCondition.
pub data StatusCondition : Type 0 where
  status_available stalled converged : StatusCondition

-- `string(condType)`
abbrev pub domain_text : DomainCondition → String
domain_text tls_configured = "TLSConfigured"
domain_text dependencies_ready = "DependenciesReady"
domain_text build_ready = "BuildReady"
domain_text pre_deploy_complete = "PreDeployComplete"
domain_text workload_available = "WorkloadAvailable"
domain_text workload_converged = "WorkloadConverged"
domain_text ingress_ready = "IngressReady"

abbrev pub status_text : StatusCondition → String
status_text status_available = "Available"
status_text stalled = "Stalled"
status_text converged = "Converged"

pub record ExternalAddress : Type 0 where
  pub target_port : ℕ
  pub address : String

pub record BuildStatus : Type 0 where
  pub name : String
  pub source_revision : String
  pub available : Bool
  pub reason : String
  pub message : String
  pub phase : String

pub record ConvergenceRecord : Type 0 where
  pub revision : String
  pub at : Time

pub data PortCheckStatusType : Type 0 where
  success failure : PortCheckStatusType

pub record PortCheckStatus : Type 0 where
  pub revision : String
  pub status : PortCheckStatusType
  pub failing_port_numbers : List ℕ
  pub failing_since : Option Time

-- FailureTypeRuntimeCrash and FailureTypeReadinessFailure, and any other text.
pub data FailureType : Type 0 where
  runtime_crash readiness_failure : FailureType
  other_failure : String → FailureType

pub record LastFailureDetail : Type 0 where
  pub type : FailureType
  pub release_id : String
  pub container_name : String
  pub restart_count : ℕ
  pub last_termination_reason : String
  pub last_termination_message : String
  pub last_termination_exit_code : Option ℕ

pub data SummaryState : Type 0 where
  summary_waiting summary_building summary_deploying summary_ready summary_failed : SummaryState

pub record StatusSummary : Type 0 where
  pub state : SummaryState
  pub reason : String
  pub message : String
  pub observed_generation : ℕ

pub record ReferencedTlsSecretStatus : Type 0 where
  pub reference : String
  pub waiting_since : Option Time

pub record CertManagerTlsStatus : Type 0 where
  pub waiting_since : Option Time

pub record Status : Type 0 where
  pub observed_generation : ℕ
  pub observed_revision : String
  pub last_converged : Option ConvergenceRecord
  pub conditions : List Condition
  pub phase : Phase
  pub image_source_revision : String
  pub external_address : List ExternalAddress
  pub internal_address : Option String
  pub last_restart_request_processed_at : Option Time
  pub current_build : Option BuildStatus
  pub status_hash : String
  pub last_failure_details : List LastFailureDetail
  pub last_failure_deployment_revision : String
  pub replicas : ℕ
  pub available_replicas : ℕ
  pub updated_replicas : ℕ
  pub last_run_time : Option Time
  pub last_run_succeeded : Option Bool
  pub port_check : Option PortCheckStatus
  pub referenced_tls_secret : Option ReferencedTlsSecretStatus
  pub cert_manager_tls : Option CertManagerTlsStatus
  pub summary : Option StatusSummary

pub record StackResource : Type 0 where
  pub metadata : ObjectMeta
  pub spec : Spec
  pub status : Status

-- reason constants that the hub branches on
abbrev pub reason_build_failed : String
reason_build_failed = "BuildFailed"

abbrev pub reason_port_not_listening : String
reason_port_not_listening = "PortNotListening"

unfoldable pub get_port : StackResource → ℕ → Option Port
unfolding find_first
get_port w port = find_first (λ p. p.number == port) w.spec.ports

unfoldable pub needs_pull_secret : StackResource → Bool
needs_pull_secret w = elim w.spec.image_spec [
  | some image ↦ if is_some image.pull_auth then true else build_auth w.spec.build_spec
  | none ↦ build_auth w.spec.build_spec
]
  where
    build_auth : Option BuildSpec → Bool
    build_auth none = false
    build_auth (some b) = is_some b.repository.auth

unfoldable pub synthesized_docker_config_secret_name : String → String
unfolding concat
synthesized_docker_config_secret_name resource_name = concat (resource_name ∷ "-dockercfg" ∷ [])

unfoldable pub init_container_name : StackResource → String
unfolding concat
init_container_name w = concat (w.metadata.name ∷ "-init" ∷ [])

-- StatusHash prints the status with its own hash cleared. The printing and hashing, done by
-- spew, fnv and SafeEncodeString, is the parameter.
unfoldable pub status_hash : (Status → String) → StackResource → String
status_hash print_hash w = print_hash (record w.status { status_hash = "" })

unfoldable pub has_exposed_port : Spec → Bool
unfolding exists
has_exposed_port w = exists (λ p. p.expose_to_public) w.ports

unfoldable pub volume_mount_sources : StackResource → List String
volume_mount_sources w = map (λ m. m.source_volume) w.spec.volume_mounts
