-- ===== src/Api/Volume.antt =====
-- api/storage/v1alpha1/volume_types.go: the Volume object.
-- The storage class, the size and the access mode are left out: no modelled code reads them.
use cluster_agent.Prelude.{ℕ, String, Option, some, none, List, Map, insert}
use cluster_agent.Api.Meta.{Condition, ObjectMeta}
use cluster_agent.Api.StackResource.{GitRepoRevision, GitAuth}

pub data VolumeCondition : Type 0 where
  volume_available synced_from_remote synced_from_git_source : VolumeCondition

-- `string(condition)`
abbrev pub volume_condition_text : VolumeCondition → String
volume_condition_text volume_available = "Available"
volume_condition_text synced_from_remote = "SyncedFromRemote"
volume_condition_text synced_from_git_source = "VolumeSyncedFromGitSource"

pub record RemoteDirSource : Type 0 where
  pub path : String
  pub current_directory_hash : String

pub record GitRepoVolumeSource : Type 0 where
  pub repo_url : String
  pub revision : GitRepoRevision
  pub destination_within_volume : String
  pub auth : Option GitAuth

pub record BuildArtifactSource : Type 0 where
  pub build_source : String
  pub source_path : String
  pub destination_path : String

pub data BuildArtifactSyncStatus : Type 0 where
  sync_pending sync_in_progress sync_completed sync_failed : BuildArtifactSyncStatus

pub record BuildArtifactSyncInfo : Type 0 where
  pub build_id : String
  pub status : BuildArtifactSyncStatus

-- `build_artifacts` is none for a nil slice.
pub record VolumeSource : Type 0 where
  pub build_artifacts : Option (List BuildArtifactSource)
  pub remote_dir : Option RemoteDirSource
  pub git_repo : Option GitRepoVolumeSource

pub record Volume : Type 0 where
  pub metadata : ObjectMeta
  pub source : Option VolumeSource
  pub observed_generation : ℕ
  pub conditions : List Condition
  pub build_artifact_syncs : Map BuildArtifactSyncInfo
  pub last_synced_git_reference : String
  pub last_remote_sync_hash : String
  pub pvc_name : String
  pub git_repo_synced_path_within_volume : String

-- MarkAsSynced
unfoldable pub mark_as_synced : Volume → String → Volume
mark_as_synced w client_directory_hash = record w {
  source = elim w.source [
    | none ↦ none
    | some s ↦ some (record s {
      remote_dir = elim s.remote_dir [
        | none ↦ none
        | some r ↦ some (record r { current_directory_hash = client_directory_hash })
      ];
    })
  ];
}

-- SetBuildArtifactSyncStatus
unfoldable pub set_build_artifact_sync_status :
    Volume → String → String → BuildArtifactSyncStatus → Volume
unfolding insert
set_build_artifact_sync_status w resource build_id status = record w {
  build_artifact_syncs =
      insert w.build_artifact_syncs resource (record { build_id = build_id; status = status });
}
