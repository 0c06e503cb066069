-- ===== src/ImageBuild/Status.antt =====
-- internal/controller/imagebuild/imagebuild_controller.go: the status of an ImageBuild.
use cluster_agent.Prelude.{
  String, Bool, false, Option, some, none, ◌||◌, ◌&&◌, map, Char, chars, trim_left, trim_right, leb,
  ◌==◌, str_eq, of_chars, not, if◌then◌else◌,
}
use Prim.Native.Char.{code}
use cluster_agent.Api.Meta.{ConditionOps, ConditionStatus, cond_true, is_condition_true}
use cluster_agent.Api.StackResource.{GitRepoRevision, get_source_revision_string}
use cluster_agent.Api.ImageBuild.{
  ImageBuild, ImageBuildStatus, BuildPhase, phase_success, BuildStatusCondition, build_available,
  build_failed, build_cancelled, build_job_created, condition_text, build_status_hash,
}

abbrev pub spec_revision : ImageBuild → String
spec_revision b = get_source_revision_string b.spec.source_revision

abbrev pub set_status : ImageBuild → ImageBuildStatus → ImageBuild
set_status b s = record b { status = s }

abbrev pub set_phase : ImageBuild → BuildPhase → ImageBuild
set_phase b p = set_status b (record b.status { phase = p })

-- `buildConfig.Status.StatusHash = buildConfig.StatusHash()`
abbrev pub rehash : (ImageBuildStatus → String) → ImageBuild → ImageBuild
rehash print_hash b =
    set_status b (record b.status { status_hash = build_status_hash print_hash b })

-- unicode.IsSpace
abbrev pub is_space : Char → Bool
is_space c =
    let n = code c in
    (leb 9 n && leb n 13)
    || n == 32
    || n == 133
    || n == 160
    || n == 5760
    || (leb 8192 n && leb n 8202)
    || n == 8232
    || n == 8233
    || n == 8239
    || n == 8287
    || n == 12288

-- validateGitRevision, as whether it returns an error.
unfoldable pub validate_git_revision : (Char → Char) → Option GitRepoRevision → Bool
unfolding trim_left trim_right
validate_git_revision lower none = false
validate_git_revision lower (some rev) =
    let commit =
      of_chars (trim_right is_space (trim_left is_space (map lower (chars rev.commit)))) in
    if str_eq commit "" || str_eq commit "head"
    then false
    else not (str_eq rev.branch "") || not (str_eq rev.tag "")

module _ ⦃ops : ConditionOps⦄ where
  -- reportImageBuildStatus
  unfoldable pub report_image_build_status :
      (ImageBuildStatus → String)
      → ImageBuild
      → BuildStatusCondition
      → ConditionStatus
      → String
      → ImageBuild
  report_image_build_status print_hash b condition value reason = rehash print_hash (
      set_status b (record b.status {
        observed_generation = b.metadata.generation;
        build_source_revision = spec_revision b;
        conditions = ops.set_condition b.status.conditions (record {
          type = condition_text condition;
          status = value;
          observed_generation = b.metadata.generation;
          reason = reason;
          message = reason;
        });
      }))

  -- reportImageBuildComplete
  unfoldable pub report_image_build_complete : (ImageBuildStatus → String) → ImageBuild → ImageBuild
  report_image_build_complete print_hash b = rehash print_hash (
      set_status b (record b.status {
        phase = phase_success;
        last_build_failure_detail = none;
        build_source_revision = spec_revision b;
        conditions = ops.set_condition b.status.conditions (record {
          type = condition_text build_available;
          status = cond_true;
          observed_generation = b.metadata.generation;
          reason = "BuildComplete";
          message = "Image build complete";
        });
      }))

  -- A condition is found and is True.
  unfoldable pub build_condition_true : ImageBuild → BuildStatusCondition → Bool
  unfolding is_condition_true
  build_condition_true b condition =
      is_condition_true b.status.conditions (condition_text condition)

  -- imageBuildInTerminalState
  unfoldable pub image_build_in_terminal_state : ImageBuild → Bool
  unfolding build_condition_true
  image_build_in_terminal_state b =
      build_condition_true b build_available
      || build_condition_true b build_failed
      || build_condition_true b build_cancelled

  -- What handleBuildJobCreation sets after the job is created.
  unfoldable pub mark_job_created : ImageBuild → ImageBuild
  mark_job_created b = set_status b (record b.status {
    build_source_revision = spec_revision b;
    conditions = ops.set_condition b.status.conditions (record {
      type = condition_text build_job_created;
      status = cond_true;
      observed_generation = 0;
      reason = "BuildJobCreated";
      message = "BuildJobCreated";
    });
  })
