-- ===== src/Api/ImageBuild.antt =====
-- api/builds/v1alpha1/imagebuild_types.go: the ImageBuild object and its methods.
pub mod Names
use cluster_agent.Prelude.{ℕ, String, Bool, true, false, Option, List, chars, of_chars, take}
use cluster_agent.Api.Meta.{Condition, ObjectMeta, Time}
use cluster_agent.Api.StackResource.{LastFailureDetail}
use cluster_agent.Api.StackResource.{
  SourceRevisionSpec, BuildContextSource, ImageRepositorySpec, BuildArg, get_source_revision_string,
}

abbrev pub annotation_resource_name : String
annotation_resource_name = "builds.stackdome.io/resource-name"

abbrev pub annotation_source_revision : String
annotation_source_revision = "builds.stackdome.io/source-revision"

abbrev pub annotation_dockerfile_path : String
annotation_dockerfile_path = "builds.stackdome.io/dockerfile-path"

-- `phase_unset` is the empty text of a new object.
pub data BuildPhase : Type 0 where
  phase_success phase_failed phase_pending phase_cancelled phase_unset : BuildPhase

abbrev pub is_success : BuildPhase → Bool
is_success phase_success = true
is_success _ = false

pub data BuildStatusCondition : Type 0 where
  build_available build_failed build_job_created build_cancelled : BuildStatusCondition

-- `string(condition)`
abbrev pub condition_text : BuildStatusCondition → String
condition_text build_available = "Available"
condition_text build_failed = "Failed"
condition_text build_job_created = "BuildJobCreated"
condition_text build_cancelled = "Cancelled"

-- `context_source` is a required pointer.
pub record BuildContextSpec : Type 0 where
  pub dockerfile_path : String
  pub context_path : String
  pub context_source : BuildContextSource

pub record ImageBuildSpec : Type 0 where
  pub resource_name : String
  pub source_revision : SourceRevisionSpec
  pub build_context : BuildContextSpec
  pub repository : ImageRepositorySpec
  pub build_args : List BuildArg
  pub cancelled : Bool

pub record ImageBuildStatus : Type 0 where
  pub observed_generation : ℕ
  pub conditions : List Condition
  pub phase : BuildPhase
  pub build_source_revision : String
  pub image_url : String
  pub status_hash : String
  pub last_build_failure_detail : Option LastFailureDetail

-- Of the metadata, beside what other objects have: the deletion and creation times, the finalizers
-- and the UIDs of the owner references.
pub record ImageBuild : Type 0 where
  pub metadata : ObjectMeta
  pub deletion_timestamp : Option Time
  pub creation_timestamp : Time
  pub finalizers : List String
  pub owner_uids : List String
  pub spec : ImageBuildSpec
  pub status : ImageBuildStatus

-- StatusHash prints the status with its own hash cleared, as the hash of a StackResource does.
unfoldable pub build_status_hash : (ImageBuildStatus → String) → ImageBuild → String
build_status_hash print_hash w = print_hash (record w.status { status_hash = "" })

-- truncateString, which counts characters
unfoldable pub truncate_string : String → ℕ → String
truncate_string s max_len = of_chars (take max_len (chars s))

unfoldable pub short_build_src_revision_from_status : ImageBuild → String
unfolding truncate_string
short_build_src_revision_from_status w = truncate_string w.status.build_source_revision 7

unfoldable pub short_build_src_revision_from_spec : ImageBuild → String
unfolding truncate_string get_source_revision_string
short_build_src_revision_from_spec w =
    truncate_string (get_source_revision_string w.spec.source_revision) 7
