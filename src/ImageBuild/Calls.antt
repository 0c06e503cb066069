-- ===== src/ImageBuild/Calls.antt =====
-- What internal/controller/imagebuild asks of the Kubernetes API and of other packages, and what it
-- asks to be written.
use cluster_agent.Prelude.{String, Bool, Option, List, Map, Char, Result}
use cluster_agent.Api.ImageBuild.{ImageBuild, ImageBuildStatus}
use cluster_agent.Api.ImageBuild.Names.{Digests}
use cluster_agent.Api.StackResource.{GitRepoSource, GitRepoRevision}
use cluster_agent.Api.Volume.{Volume}
use cluster_agent.Registry.Reference.{ClusterRegistryView}
use cluster_agent.Workload.Crash.{Pod}

-- v1.Secret
pub record Secret : Type 0 where
  pub name : String
  pub contents : Map String

-- batchv1.JobCondition, by whether its status is True.
pub record JobCondition : Type 0 where
  pub type : String
  pub is_true : Bool

-- batchv1.Job: `controller_uid` is the UID of the controlling owner reference.
pub record BuildJob : Type 0 where
  pub name : String
  pub namespace : String
  pub annotations : Map String
  pub controller_uid : Option String
  pub conditions : List JobCondition

pub record ResolvedBuildArg : Type 0 where
  pub name : String
  pub value : String

-- imagebuilder.Source
pub data BuildSource : Type 0 where
  volume_source : (pvc_name git_repo_path : String) → BuildSource
  git_source : (repo : GitRepoSource) → (revision : Option GitRepoRevision) → BuildSource

-- imagebuilder.BuildParams, as the controller fills it.
pub record BuildParams : Type 0 where
  pub job_name : String
  pub namespace : String
  pub destination : String
  pub insecure : Bool
  pub dockerfile_path : String
  pub context : String
  pub source : BuildSource
  pub docker_config_secret : Option Secret
  pub docker_config_secret_key : String
  pub build_args : List ResolvedBuildArg

-- ImageUrl
abbrev pub image_url_of : BuildParams → String
image_url_of b = b.destination

-- A ClusterRegistry for the cleanup: the secret of its credentials, if it has any, with the name and
-- the namespace of the secret and the keys of the user name and the password.
pub record RegistryCredentialsRef : Type 0 where
  pub secret_name : String
  pub secret_namespace : String
  pub username_key : String
  pub password_key : String

-- The answers of the API, where a missing object is none, and of the packages that are called. A
-- call that returns only an error is an option of a text.
pub record BuildCalls : Type 0 where
  pub lower : Char → Char
  pub parse_host : String → Result String
  pub digests : Digests
  pub print_hash : ImageBuildStatus → String
  pub sanitize_message : String → String
  pub get_volume : (name namespace : String) → Result Volume
  pub get_secret : (name namespace : String) → Result (Option Secret)
  pub get_registry : String → Result (Option ClusterRegistryView)
  pub get_registry_credentials : String → Result (Option (Option RegistryCredentialsRef))
  pub get_job : (name namespace : String) → Result (Option BuildJob)
  pub list_jobs : (namespace : String) → Result (List BuildJob)
  pub list_pods : BuildJob → Result (List Pod)
  pub generate_job : BuildParams → Result BuildJob
  pub set_owner : ImageBuild → BuildJob → Result BuildJob
  pub create_job : BuildJob → Option String
  pub delete_job : BuildJob → Option String
  pub delete_image : (url username password : String) → Option String
  pub update : ImageBuild → Option String
  pub update_status : ImageBuild → Option String

-- What a part of a pass asks to be done to jobs, and what a pass asks to be written.
pub data JobWrite : Type 0 where
  creates_job deletes_job : BuildJob → JobWrite

pub data Write : Type 0 where
  writes_job : JobWrite → Write
  deletes_image : String → Write
  updates : ImageBuild → Write
  updates_status : ImageBuild → Write
