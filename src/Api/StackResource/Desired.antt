-- ===== src/Api/StackResource/Desired.antt =====
-- api/core/v1alpha1/stack_resource_types.go: the desired state.
-- Container resource requirements are left out: the controllers pass them on unread.
use cluster_agent.Prelude.{ℕ, String, Bool, Option, some, none, List}
use cluster_agent.Api.Meta.{Time, SecretReference, SecretKeySelector}

-- `unset` is the empty text, and `unknown` any text that is not in the enumeration.
pub data WorkloadType : Type 0 where
  service stateful_service worker job cron_job unset : WorkloadType
  unknown : String → WorkloadType

pub record HttpGetProbe : Type 0 where
  pub path : String
  pub port_name : String

pub record TcpSocketProbe : Type 0 where
  pub port_name : String

pub record Probe : Type 0 where
  pub http_get : Option HttpGetProbe
  pub tcp_socket : Option TcpSocketProbe
  pub command : List String
  pub initial_delay_seconds : ℕ
  pub period_seconds : ℕ
  pub failure_threshold : ℕ
  pub timeout_seconds : ℕ

pub record HealthChecks : Type 0 where
  pub readiness : Option Probe
  pub liveness : Option Probe
  pub startup : Option Probe

pub record Port : Type 0 where
  pub name : String
  pub number : ℕ
  pub protocol : String
  pub expose_to_public : Bool
  pub fqdn : String
  pub tls : Bool
  pub tls_secret_ref : String

pub record EnvironmentVariable : Type 0 where
  pub name : String
  pub value : String
  pub value_from : Option SecretKeySelector

pub record BuildArg : Type 0 where
  pub name : String
  pub value : String
  pub value_from : Option SecretKeySelector

pub record VolumeMount : Type 0 where
  pub source_volume : String
  pub source_sub_path : String
  pub destination : String
  pub read_only : Bool

pub record GitRepoRevision : Type 0 where
  pub branch : String
  pub tag : String
  pub commit : String

pub record SourceRevisionSpec : Type 0 where
  pub volume : Option String
  pub git_repo : Option GitRepoRevision

unfoldable pub get_git_revision_string : GitRepoRevision → String
get_git_revision_string s = s.commit

unfoldable pub get_source_revision_string : SourceRevisionSpec → String
unfolding get_git_revision_string
get_source_revision_string s = elim s.volume [
  | some revision ↦ revision
  | none ↦ elim s.git_repo [ some g ↦ get_git_revision_string g | none ↦ "" ]
]

pub record CredentialSecretKeyPair : Type 0 where
  pub secret_ref : SecretReference
  pub username_key : String
  pub password_key : String

pub record GitAuth : Type 0 where
  pub username_password_auth_ref : Option CredentialSecretKeyPair
  pub personal_access_token_ref : Option CredentialSecretKeyPair

pub record GitRepoSource : Type 0 where
  pub repo_url : String
  pub auth : Option GitAuth

pub record BuildContextSource : Type 0 where
  pub volume : Option String
  pub git : Option GitRepoSource

pub record DockerConfigAuth : Type 0 where
  pub secret_key : String
  pub secret_ref : SecretReference

pub data RegistryAuthType : Type 0 where
  docker_hub in_cluster_zot_registry : RegistryAuthType
  other_registry : String → RegistryAuthType

pub record RegistryAuth : Type 0 where
  pub type : RegistryAuthType
  pub docker_config_auth : Option DockerConfigAuth

pub record ExternalRegistrySpec : Type 0 where
  pub host : String
  pub tls_insecure : Option Bool

pub record RegistryCredentialsSpec : Type 0 where
  pub docker_config : Option DockerConfigAuth
  pub basic : Option CredentialSecretKeyPair

-- `fixed_tag` is tagPolicy.fixed.tag, where both are set.
pub record ImageRepositorySpec : Type 0 where
  pub cluster_registry_ref : Option String
  pub external : Option ExternalRegistrySpec
  pub repository : String
  pub fixed_tag : Option String
  pub auth : Option RegistryCredentialsSpec

pub data PullPolicy : Type 0 where
  pull_always pull_if_not_present pull_never pull_unset : PullPolicy

pub record ImageSpec : Type 0 where
  pub image : String
  pub image_pull_policy : PullPolicy
  pub pull_auth : Option RegistryAuth

pub record InitSpec : Type 0 where
  pub command : List String
  pub args : List String
  pub image_spec : Option ImageSpec

pub record BuildSpec : Type 0 where
  pub source_context : BuildContextSource
  pub build_context : String
  pub docker_file_path : String
  pub source_revision : SourceRevisionSpec
  pub repository : ImageRepositorySpec
  pub build_args : List BuildArg

pub record Spec : Type 0 where
  pub workload_type : WorkloadType
  pub schedule : String
  pub replicas : Option ℕ
  pub build_spec : Option BuildSpec
  pub image_spec : Option ImageSpec
  pub init : Option InitSpec
  pub command : List String
  pub args : List String
  pub environment_variables : List EnvironmentVariable
  pub volume_mounts : List VolumeMount
  pub depends_on : List String
  pub ports : List Port
  pub health_checks : Option HealthChecks
  pub pre_deploy_command : List String
  pub termination_grace_period_seconds : Option ℕ
  pub hardened_security_defaults : Option Bool
  pub restart_request : Option Time
