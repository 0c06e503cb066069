-- ===== src/Storage/VolumeSync/Local.antt =====
-- A local directory: what the volume records of it and what a workload reads.
use cluster_agent.Prelude.{◌≡◌, false, some, arith, str_eq, eq_iff, ◌==◌}
use cluster_agent.Api.Meta.{ConditionOps, is_condition_true-set}
use cluster_agent.Api.Volume.{
  Volume, VolumeSource, RemoteDirSource, volume_condition_text, synced_from_remote,
}
use cluster_agent.StackResource.Dependencies.{local_dir_synced_to_volume}
use cluster_agent.Storage.VolumeSync.{reconcile_local_volume_source, synced}

-- After the pass over a local directory that has a hash, a workload sees the directory as synced
-- exactly when the status of the volume is of its current generation.
pub local_volume_is_synced :
    ⦃ops : ConditionOps⦄
    → (v : Volume) → (source : VolumeSource) → (dir : RemoteDirSource)
    → source.remote_dir ≡ some dir
    → str_eq dir.current_directory_hash "" ≡ false
    → local_dir_synced_to_volume (reconcile_local_volume_source v source) dir
      ≡ (v.observed_generation == v.metadata.generation)
unfolding local_dir_synced_to_volume reconcile_local_volume_source
local_volume_is_synced v source dir h e =
    let cs = volume_condition_text synced_from_remote in
    ground (
      arith,
      h,
      e,
      is_condition_true-set v.conditions (synced v dir) cs,
      eq_iff cs cs,
      eq_iff dir.current_directory_hash dir.current_directory_hash,
    )
