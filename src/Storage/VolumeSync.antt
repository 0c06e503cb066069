-- ===== src/Storage/VolumeSync.antt =====
-- internal/controller/volume/volume_source_sync_reconciler.go: a volume that holds what builds made.
-- The state of the copying job, as whether it is complete, and its creation are arguments.
pub mod Ids
pub mod Local
use cluster_agent.Prelude.{
  str_eq, String, Bool, true, false, Option, some, none, Result, ok, err, [], ◌∷◌, concat,
  if◌then◌else◌,
}
use cluster_agent.Api.Meta.{Condition, ConditionOps, cond_true, is_condition_true}
use cluster_agent.Api.ImageBuild.{
  ImageBuild, build_available, build_failed, condition_text, short_build_src_revision_from_status,
  short_build_src_revision_from_spec,
}
use cluster_agent.Api.Volume.{
  Volume, VolumeSource, RemoteDirSource, volume_condition_text, synced_from_remote,
  BuildArtifactSyncStatus, sync_pending, sync_completed, sync_failed,
  set_build_artifact_sync_status,
}

pub record SyncCalls : Type 0 where
  pub set_owner : Volume → Option String
  pub get_job : Volume → String → ImageBuild → Result (Option Bool)
  pub create_job : Volume → String → ImageBuild → Option String

module _ ⦃ops : ConditionOps⦄ (calls : SyncCalls) (volume : Volume) (resource_name : String)
    (b : ImageBuild) where
  -- What holds without a complete copying job: the build failed, or it is waited for.
  unfoldable pub without_job : Volume
  unfolding set_build_artifact_sync_status is_condition_true short_build_src_revision_from_spec
  without_job =
      set_build_artifact_sync_status volume resource_name (short_build_src_revision_from_spec b) (
        if is_condition_true b.status.conditions (condition_text build_failed)
        then sync_failed
        else sync_pending)

  abbrev pub after_create_sync_job : Option String → Result Volume
  after_create_sync_job (some e) = err e
  after_create_sync_job none = ok volume

  unfoldable pub after_sync_job : Result (Option Bool) → Result Volume
  unfolding without_job short_build_src_revision_from_status concat
  after_sync_job (err e) =
      err (concat ("failed to get existing build artifacts sync job: " ∷ e ∷ []))
  after_sync_job (ok none) = after_create_sync_job (calls.create_job volume resource_name b)
  after_sync_job (ok (some false)) = ok without_job
  after_sync_job (ok (some true)) = ok (
      set_build_artifact_sync_status volume resource_name (short_build_src_revision_from_status b)
        sync_completed)

  abbrev pub after_set_job_owner : Option String → Result Volume
  after_set_job_owner (some e) = err e
  after_set_job_owner none = after_sync_job (calls.get_job volume resource_name b)

  -- reconcileBuildArtifactsSrcsForResource
  unfoldable pub sync_build_artifacts : Result Volume
  unfolding after_sync_job without_job is_condition_true
  sync_build_artifacts =
      if is_condition_true b.status.conditions (condition_text build_available)
      then after_set_job_owner (calls.set_owner volume)
      else ok without_job

-- The condition of a local directory that the client has synced.
abbrev pub synced : Volume → RemoteDirSource → Condition
synced volume dir = record {
  type = volume_condition_text synced_from_remote;
  status = cond_true;
  observed_generation = volume.metadata.generation;
  reason = "RemoteDataSynced";
  message = concat ("Directory with hash '" ∷ dir.current_directory_hash ∷ "' synced" ∷ []);
}

-- reconcileLocalVolumeSource, on the directory of the source
abbrev pub after_local_source : ⦃ops : ConditionOps⦄ → Volume → Option RemoteDirSource → Volume
after_local_source ⦃ops⦄ volume none = volume
after_local_source ⦃ops⦄ volume (some dir) =
    if str_eq dir.current_directory_hash "" then volume else record volume {
      conditions = ops.set_condition volume.conditions (synced volume dir);
      last_remote_sync_hash = dir.current_directory_hash;
    }

-- reconcileLocalVolumeSource: `source` is what the volume has, since the caller skips the others.
unfoldable pub reconcile_local_volume_source : ⦃ops : ConditionOps⦄ → Volume → VolumeSource → Volume
unfolding concat
reconcile_local_volume_source volume source = after_local_source volume source.remote_dir
