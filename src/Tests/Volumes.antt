-- ===== src/Tests/Volumes.antt =====
-- A volume that holds what the builds of a service made.
use cluster_agent.Prelude.{◌≡◌, ◌↔◌, ◌≤◌, refl, true, none, some, [], ◌∷◌, ok, chars, length}
use cluster_agent.Api.Meta.{cond_true, is_condition_true}
use cluster_agent.Api.Meta.Listed.{listed}
use cluster_agent.Api.StackResource.{StackResource, BuildStatus}
use cluster_agent.Api.ImageBuild.{ImageBuild, phase_success, build_available, condition_text}
use cluster_agent.Api.Volume.{Volume, VolumeSource, RemoteDirSource}
use cluster_agent.StackResource.Dependencies.{is_volume_ready, local_dir_synced_to_volume}
use cluster_agent.Storage.VolumeSync.{
  SyncCalls, sync_build_artifacts, reconcile_local_volume_source,
}
use cluster_agent.Storage.VolumeSync.Ids.{copied_artifacts_ready_iff}
use cluster_agent.Storage.VolumeSync.Local.{local_volume_is_synced}
use cluster_agent.Tests.Samples.{web}
use cluster_agent.Tests.Builds.{pending_build}

abbrev calls : SyncCalls
calls = record {
  set_owner = λ v. none;
  get_job = λ v name b. ok (some true);
  create_job = λ v name b. none;
}

abbrev artifacts : VolumeSource
artifacts = record {
  build_artifacts = some (
      record { build_source = "web"; source_path = "/app/dist"; destination_path = "/static" }
      ∷ []);
  remote_dir = none;
  git_repo = none;
}

abbrev static_volume : Volume
static_volume = record {
  metadata = record web.metadata { name = "static" };
  source = some artifacts;
  observed_generation = 1;
  conditions = [];
  build_artifact_syncs = [];
  last_synced_git_reference = "";
  last_remote_sync_hash = "";
  pvc_name = "static";
  git_repo_synced_path_within_volume = "";
}

-- A build of a commit, and what the resource records of it.
abbrev built : ImageBuild
built = record pending_build {
  status = record pending_build.status {
    phase = phase_success;
    build_source_revision = "4f2a9c1d7e";
    conditions =
        record {
          type = "Available";
          status = cond_true;
          observed_generation = 1;
          reason = "BuildComplete";
          message = "Image build complete";
        }
        ∷ [];
  };
}

abbrev current : BuildStatus
current = record {
  name = "web-4f2a9c1";
  source_revision = "4f2a9c1d7e";
  available = true;
  reason = "BuildComplete";
  message = "";
  phase = "Success";
}

abbrev built_web : StackResource
built_web = record web { status = record web.status { current_build = some current } }

built_is_available :
    is_condition_true ⦃ops = listed⦄ built.status.conditions (condition_text build_available) ≡ true
unfolding is_condition_true listed
built_is_available = refl

copied_artifacts_ready_iff_example :
    (w : Volume) × (sync_build_artifacts ⦃ops = listed⦄ calls static_volume "web" built ≡ ok w)
    × (((is_volume_ready ⦃ops = listed⦄ w built_web).0 ≡ true) ↔ (length (chars "4f2a9c1d7e") ≤ 7))
copied_artifacts_ready_iff_example =
    copied_artifacts_ready_iff ⦃ops = listed⦄ calls static_volume built_web built current artifacts
      (record { build_source = "web"; source_path = "/app/dist"; destination_path = "/static" }
        ∷ [])
      built_is_available refl refl refl refl refl refl refl refl refl

abbrev directory : RemoteDirSource
directory = record { path = "/src"; current_directory_hash = "d41d8c" }

abbrev local : VolumeSource
local = record { build_artifacts = none; remote_dir = some directory; git_repo = none }

local_volume_is_synced_example :
    local_dir_synced_to_volume ⦃ops = listed⦄
      (reconcile_local_volume_source ⦃ops = listed⦄
        (record static_volume { source = some local; observed_generation = 3 })
        local)
      directory
    ≡ true
local_volume_is_synced_example =
    local_volume_is_synced ⦃ops = listed⦄
      (record static_volume { source = some local; observed_generation = 3 }) local directory refl
      refl
