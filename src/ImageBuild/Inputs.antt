-- ===== src/ImageBuild/Inputs.antt =====
-- internal/controller/imagebuild/imagebuild_controller.go: the volume, the credentials and the build
-- arguments that a build job needs.
use cluster_agent.Prelude.{
  String, Bool, false, Option, some, none, List, [], ◌∷◌, Result, ok, err, lookup, str_eq, ◌==◌,
  ◌&&◌, not, concat, if◌then◌else◌,
}
use cluster_agent.Api.Meta.{Condition, ConditionOps, cond_true, is_cond_false}
use cluster_agent.Api.StackResource.{
  BuildArg, synthesized_docker_config_secret_name, get_git_revision_string,
}
use cluster_agent.Api.ImageBuild.{ImageBuild, build_failed}
use cluster_agent.Api.Volume.{
  Volume, VolumeSource, volume_condition_text, volume_available, synced_from_remote,
  synced_from_git_source,
}
use cluster_agent.ImageBuild.Calls.{BuildCalls, Secret, ResolvedBuildArg}
use cluster_agent.ImageBuild.Status.{report_image_build_status, spec_revision}

module _ ⦃ops : ConditionOps⦄ where
  -- volumeAvailable
  unfoldable pub is_volume_available : Volume → Bool
  is_volume_available volume =
      elim (ops.find_condition volume.conditions (volume_condition_text volume_available)) [
        | none ↦ false
        | some c ↦ not (is_cond_false c.status)
      ]

  -- `cond == nil || cond.Status == False || cond.ObservedGeneration != volume.Generation`, negated
  abbrev synced : Volume → Option Condition → Bool
  synced volume none = false
  synced volume (some c) =
      not (is_cond_false c.status) && c.observed_generation == volume.metadata.generation

  abbrev source_ready : Volume → ImageBuild → VolumeSource → Bool
  source_ready volume b source = elim source.remote_dir [
    | some dir ↦
        if synced volume
          (ops.find_condition volume.conditions (volume_condition_text synced_from_remote))
        then str_eq dir.current_directory_hash (spec_revision b)
        else false
    | none ↦ elim source.git_repo [
      | some git ↦
          if synced volume
            (ops.find_condition volume.conditions (volume_condition_text synced_from_git_source))
          then str_eq (get_git_revision_string git.revision) (spec_revision b)
          else false
      | none ↦ false
    ]
  ]

  -- volumeReadyForBuild
  unfoldable pub volume_ready_for_build : Volume → ImageBuild → Bool
  volume_ready_for_build volume b = elim volume.source [
    | none ↦ false
    | some source ↦ source_ready volume b source
  ]

  -- What a build argument from a secret gives: its value, or an error and the build with a verdict.
  abbrev pub report_arg : BuildCalls → ImageBuild → String → String → Result String × ImageBuild
  report_arg calls b reason message =
      (err message, report_image_build_status calls.print_hash b build_failed cond_true reason)

  abbrev pub after_arg_key :
      BuildCalls → ImageBuild → String → Option String → Result String × ImageBuild
  after_arg_key calls b arg none =
      report_arg calls b "BuildArgSecretKeyNotFound"
        (concat ("key not found in secret for build arg " ∷ arg ∷ []))
  after_arg_key calls b arg (some value) = (ok value, b)

  abbrev pub after_arg_secret :
      BuildCalls
      → ImageBuild
      → String
      → String
      → Result (Option Secret)
      → Result String × ImageBuild
  after_arg_secret calls b arg key (err e) =
      (err (concat ("failed to get secret for build arg " ∷ arg ∷ ": " ∷ e ∷ [])), b)
  after_arg_secret calls b arg key (ok none) =
      report_arg calls b "BuildArgSecretNotFound"
        (concat ("secret not found for build arg " ∷ arg ∷ []))
  after_arg_secret calls b arg key (ok (some secret)) =
      after_arg_key calls b arg (lookup secret.contents key)

  -- One round of the loop of resolveBuildArgs.
  unfoldable pub build_arg_value : BuildCalls → ImageBuild → BuildArg → Result String × ImageBuild
  build_arg_value calls b arg = elim arg.value_from [
    | none ↦ (ok arg.value, b)
    | some ref ↦
        after_arg_secret calls b arg.name ref.key (calls.get_secret ref.name b.metadata.namespace)
  ]

  abbrev pub Args : Type 0
  Args = Result (List ResolvedBuildArg) × ImageBuild

  abbrev cons_arg : ResolvedBuildArg → Args → Args
  cons_arg a (err e, b) = (err e, b)
  cons_arg a (ok args, b) = (ok (a ∷ args), b)

  -- The rest of the loop is run only when the round gives a value.
  abbrev pub add_arg : BuildArg → Result String × ImageBuild → Args → Args
  add_arg arg (err e, b) rest = (err e, b)
  add_arg arg (ok v, b) rest = cons_arg (record { name = arg.name; value = v }) rest

  -- resolveBuildArgs: a round that gives a value leaves the build as it is.
  unfoldable pub resolve_build_args : BuildCalls → ImageBuild → List BuildArg → Args
  unfolding build_arg_value
  resolve_build_args calls b [] = (ok [], b)
  resolve_build_args calls b (arg ∷ args) =
      let rest = resolve_build_args calls b args in add_arg arg (build_arg_value calls b arg) rest

-- getDockerConfigSecret, with the key that its caller adds
abbrev with_key : String → Result (Option Secret) → Result (Option Secret × String)
with_key key (err e) = err e
with_key key (ok none) = err "docker config secret not found"
with_key key (ok (some secret)) = ok (some secret, key)

-- The default branch and a build without credentials give no secret.
abbrev no_secret : Result (Option Secret × String)
no_secret = ok (none, "")

-- getRegistryAuthSecrets
unfoldable pub get_registry_auth_secrets : BuildCalls → ImageBuild → Result (Option Secret × String)
get_registry_auth_secrets calls b = elim b.spec.repository.auth [
  | none ↦ no_secret
  | some auth ↦ elim auth.docker_config [
    | some docker ↦
        with_key docker.secret_key
          (calls.get_secret docker.secret_ref.name docker.secret_ref.namespace)
    | none ↦ elim auth.basic [
      | some basic ↦ with_key ".dockerconfigjson" (
          calls.get_secret (synthesized_docker_config_secret_name b.spec.resource_name)
            b.metadata.namespace)
      | none ↦ no_secret
    ]
  ]
]
