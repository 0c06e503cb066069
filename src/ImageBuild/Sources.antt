-- ===== src/ImageBuild/Sources.antt =====
-- internal/controller/imagebuild/imagebuild_controller.go: a build from a volume or from git, up to
-- its job (reconcileImageBuildWithVolumeSource and reconcileImageBuildWithGitSource).
use cluster_agent.Prelude.{String, not, Option, List, Result, ok, err, insert, if◌then◌else◌, ◌*◌}
use cluster_agent.Api.Meta.{ConditionOps, cond_true, cond_false, Duration, second}
use cluster_agent.Api.StackResource.{GitRepoSource}
use cluster_agent.Api.ImageBuild.{
  ImageBuild, phase_failed, build_available, build_failed, annotation_resource_name,
  annotation_source_revision, annotation_dockerfile_path,
}
use cluster_agent.Api.ImageBuild.Names.{build_job_name}
use cluster_agent.Api.Volume.{Volume}
use cluster_agent.Controller.SubReconciler.{done, requeue_now, come_back}
use cluster_agent.Registry.Reference.{
  ResolvedRepository, Resolution, resolved, registry_not_ready, resolve_error, reference,
  resolve_image_repository,
}
use cluster_agent.ImageBuild.Calls.{
  BuildCalls, BuildJob, BuildParams, BuildSource, volume_source, git_source, Secret,
  ResolvedBuildArg,
}
use cluster_agent.ImageBuild.Status.{
  spec_revision, set_phase, report_image_build_status, validate_git_revision,
}
use cluster_agent.ImageBuild.Inputs.{
  is_volume_available, volume_ready_for_build, Args, resolve_build_args, get_registry_auth_secrets,
}
use cluster_agent.ImageBuild.Job.{Ended, stops_with, ends_with, reconcile_build_job}

abbrev pub registry_not_ready_requeue_delay : Duration
registry_not_ready_requeue_delay = 10 * second

-- setBuildJobAnnotations
unfoldable pub set_build_job_annotations : BuildJob → String → String → String → BuildJob
unfolding insert
set_build_job_annotations job resource_name source_revision dockerfile_path = record job {
  annotations =
      insert
        (insert (insert job.annotations annotation_resource_name resource_name)
          annotation_source_revision source_revision)
        annotation_dockerfile_path dockerfile_path;
}

abbrev Auth : Type 0
Auth = Option Secret × String

module _ ⦃ops : ConditionOps⦄ (calls : BuildCalls) where
  -- resolveDestination
  unfoldable pub resolve_destination : ImageBuild → Resolution
  unfolding resolve_image_repository
  resolve_destination b =
      resolve_image_repository calls.lower calls.parse_host calls.get_registry b.spec.repository
        (spec_revision b)

  unfoldable pub params_of :
      ImageBuild → BuildSource → Auth → List ResolvedBuildArg → ResolvedRepository → BuildParams
  unfolding reference build_job_name
  params_of b source auth args target = record {
    job_name = build_job_name calls.lower calls.digests b;
    namespace = b.metadata.namespace;
    destination = reference target;
    insecure = target.insecure;
    dockerfile_path = b.spec.build_context.dockerfile_path;
    context = b.spec.build_context.context_path;
    source = source;
    docker_config_secret = auth.0;
    docker_config_secret_key = auth.1;
    build_args = args;
  }

  abbrev pub after_owner : ImageBuild → BuildParams → Result BuildJob → Ended
  after_owner b params (err e) = stops_with b e
  after_owner b params (ok job) = reconcile_build_job calls b job params

  abbrev pub after_generate : ImageBuild → BuildParams → Result BuildJob → Ended
  after_generate b params (err e) = stops_with b e
  after_generate b params (ok job) = after_owner b params (
      calls.set_owner b (
        set_build_job_annotations job b.spec.resource_name (spec_revision b)
          b.spec.build_context.dockerfile_path))

  abbrev pub after_destination :
      ImageBuild → BuildSource → Auth → List ResolvedBuildArg → Resolution → Ended
  after_destination b source auth args registry_not_ready =
      ends_with
        (report_image_build_status calls.print_hash b build_available cond_false "RegistryNotReady")
        (come_back registry_not_ready_requeue_delay)
  after_destination b source auth args (resolve_error e) =
      stops_with
        (report_image_build_status calls.print_hash b build_available cond_false
          "RepositoryResolveFailed")
        e
  after_destination b source auth args (resolved target) =
      let params = params_of b source auth args target in
      after_generate b params (calls.generate_job params)

  abbrev pub after_args : BuildSource → Auth → Args → Ended
  after_args source auth (err e, b) = stops_with b e
  after_args source auth (ok args, b) = after_destination b source auth args (resolve_destination b)

  abbrev pub after_auth : ImageBuild → BuildSource → Result Auth → Ended
  after_auth b source (err e) = stops_with b e
  after_auth b source (ok auth) =
      after_args source auth (resolve_build_args calls b b.spec.build_args)

  -- What both kinds of source do once the source is ready.
  unfoldable pub build_from : ImageBuild → BuildSource → Ended
  unfolding get_registry_auth_secrets resolve_build_args resolve_destination params_of
      set_build_job_annotations reconcile_build_job
  build_from b source = after_auth b source (get_registry_auth_secrets calls b)

  abbrev pub not_ready : ImageBuild → String → Ended
  not_ready b reason =
      ends_with (report_image_build_status calls.print_hash b build_available cond_false reason)
        requeue_now

  abbrev pub after_volume : ImageBuild → Result Volume → Ended
  after_volume b (err e) = stops_with b e
  after_volume b (ok volume) =
      if not (is_volume_available volume)
      then not_ready b "VolumeNotReady"
      else if not (volume_ready_for_build volume b)
      then not_ready b "VolumeNotReadyForBuild"
      else build_from b (volume_source volume.pvc_name volume.git_repo_synced_path_within_volume)

  -- reconcileImageBuildWithVolumeSource, on the name of the volume
  unfoldable pub reconcile_with_volume_source : ImageBuild → String → Ended
  unfolding is_volume_available volume_ready_for_build build_from
  reconcile_with_volume_source b volume =
      after_volume b (calls.get_volume volume b.metadata.namespace)

  -- reconcileImageBuildWithGitSource, on the git source
  unfoldable pub reconcile_with_git_source : ImageBuild → GitRepoSource → Ended
  unfolding validate_git_revision build_from
  reconcile_with_git_source b repo =
      if validate_git_revision calls.lower b.spec.source_revision.git_repo
      then build_from b (git_source repo b.spec.source_revision.git_repo)
      else ends_with
          (set_phase
            (report_image_build_status calls.print_hash b build_failed cond_true
              "SourceRevisionInvalid")
            phase_failed)
          done
