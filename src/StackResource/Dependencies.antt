-- ===== src/StackResource/Dependencies.antt =====
-- internal/controller/stackresource/workload_dependency_checker.go: what a workload waits for.
-- The lists of the API are arguments.
pub mod Means
use cluster_agent.Prelude.{
  String, Bool, true, false, not, Option, some, none, List, [], ◌∷◌, map, keep, contains, concat,
  str_eq, length, is_empty, lookup, Result, ok, err, ◌==◌, ◌&&◌, if◌then◌else◌,
}
use cluster_agent.Api.Meta.{ConditionOps, is_condition_true}
use cluster_agent.Api.StackResource.{
  StackResource, BuildStatus, VolumeMount, get_git_revision_string,
}
use cluster_agent.Api.Volume.{
  Volume, VolumeSource, RemoteDirSource, GitRepoVolumeSource, BuildArtifactSource,
  BuildArtifactSyncInfo, BuildArtifactSyncStatus, sync_completed, volume_condition_text,
  synced_from_remote, synced_from_git_source,
}
use cluster_agent.StackResource.Conditions.{stack_resource_available}

-- The test of getDependencies: another resource that this one names
abbrev pub is_dependency : StackResource → StackResource → Bool
is_dependency resource sr =
    not (str_eq sr.metadata.name resource.metadata.name)
    && contains resource.spec.depends_on sr.metadata.name

-- getDependencies, the filter over the list of the API
abbrev pub after_list_resources :
    Result (List StackResource) → StackResource → Result (List StackResource)
after_list_resources (err e) resource = err e
after_list_resources (ok listed) resource =
    let res = keep (is_dependency resource) listed in
    if length res == length resource.spec.depends_on
    then ok res
    else err "missing workspace resource deps"

-- getDependencies
unfoldable pub get_dependencies :
    Result (List StackResource) → StackResource → Result (List StackResource)
unfolding keep contains
get_dependencies listed resource =
    if is_empty resource.spec.depends_on then ok [] else after_list_resources listed resource

-- controller.Unique, on the names of volumes that were seen
unfoldable pub unique_from : List String → List Volume → List Volume
unfolding contains
unique_from seen [] = []
unique_from seen (v ∷ vs) =
    let name = v.metadata.name in
    let rest = unique_from (if contains seen name then seen else name ∷ seen) vs in
    if contains seen name then rest else v ∷ rest

-- getVolumes
unfoldable pub get_volumes : Result (List Volume) → StackResource → Result (List Volume)
unfolding keep contains unique_from
get_volumes (err e) resource = err e
get_volumes (ok listed) resource = ok (
    unique_from [] (
      keep
        (λ v.
          contains (map (λ (m : VolumeMount). m.source_volume) resource.spec.volume_mounts)
            v.metadata.name)
        listed))

abbrev is_completed : BuildArtifactSyncStatus → Bool
is_completed sync_completed = true
is_completed _ = false

-- buildSyncCompletedAndUptoDate
unfoldable pub build_sync_completed_and_upto_date : BuildArtifactSyncInfo → String → Bool
build_sync_completed_and_upto_date info current_build_id =
    is_completed info.status && str_eq info.build_id current_build_id

abbrev pub sync_found : Option BuildArtifactSyncInfo → String → Bool
sync_found none current_build_id = false
sync_found (some info) current_build_id = build_sync_completed_and_upto_date info current_build_id

-- isVolumeReady, a volume of build artifacts
abbrev pub artifacts_ready : Volume → StackResource → Option BuildStatus → Bool × String
artifacts_ready volume resource none = (false, "Current build not yet available")
artifacts_ready volume resource (some current) =
    if not current.available
    then (false, "Current build not yet available")
    else if sync_found (lookup volume.build_artifact_syncs resource.metadata.name)
        current.source_revision
    then (true, "")
    else (false, "Volume sync from build not yet complete")

module _ ⦃ops : ConditionOps⦄ where
  -- localDirSyncedToVolume
  unfoldable pub local_dir_synced_to_volume : Volume → RemoteDirSource → Bool
  unfolding is_condition_true
  local_dir_synced_to_volume volume dir =
      is_condition_true volume.conditions (volume_condition_text synced_from_remote)
      && volume.observed_generation == volume.metadata.generation
      && str_eq volume.last_remote_sync_hash dir.current_directory_hash

  -- gitRepoSyncedToVolume
  unfoldable pub git_repo_synced_to_volume : Volume → GitRepoVolumeSource → Bool
  unfolding is_condition_true get_git_revision_string
  git_repo_synced_to_volume volume git =
      is_condition_true volume.conditions (volume_condition_text synced_from_git_source)
      && volume.observed_generation == volume.metadata.generation
      && str_eq volume.last_synced_git_reference (get_git_revision_string git.revision)

  -- isVolumeReady, the switch over the source
  abbrev pub ready_by_source :
      Volume
      → StackResource
      → Option RemoteDirSource
      → Option GitRepoVolumeSource
      → Option (List BuildArtifactSource)
      → Bool × String
  ready_by_source volume resource (some dir) git artifacts =
      if local_dir_synced_to_volume volume dir
      then (true, "")
      else (false, "Local directory not yet synced to volume")
  ready_by_source volume resource none (some git) artifacts =
      if git_repo_synced_to_volume volume git
      then (true, "")
      else (false, "Git repository not yet synced to volume")
  ready_by_source volume resource none none (some artifacts) =
      artifacts_ready volume resource resource.status.current_build
  ready_by_source volume resource none none none = (true, "")

  abbrev pub ready_by : Volume → StackResource → Option VolumeSource → Bool × String
  ready_by volume resource none = (true, "")
  ready_by volume resource (some source) =
      ready_by_source volume resource source.remote_dir source.git_repo source.build_artifacts

  -- isVolumeReady
  unfoldable pub is_volume_ready : Volume → StackResource → Bool × String
  unfolding local_dir_synced_to_volume git_repo_synced_to_volume build_sync_completed_and_upto_date
      lookup
  is_volume_ready volume resource = ready_by volume resource volume.source

  -- VolumeMountsReadyForUse, the loop
  unfoldable pub all_volumes_ready : StackResource → List Volume → Bool × String
  unfolding is_volume_ready
  all_volumes_ready resource [] = (true, "")
  all_volumes_ready resource (v ∷ vs) =
      let rest = all_volumes_ready resource vs in
      let (ready, message) = is_volume_ready v resource in if ready then rest else (false, message)

  abbrev after_get_volumes : StackResource → Result (List Volume) → Result (Bool × String)
  after_get_volumes resource (err e) = err (concat ("failed to get workspace volumes: " ∷ e ∷ []))
  after_get_volumes resource (ok volumes) = ok (all_volumes_ready resource volumes)

  -- VolumeMountsReadyForUse
  unfoldable pub volume_mounts_ready_for_use :
      Result (List Volume) → StackResource → Result (Bool × String)
  unfolding get_volumes all_volumes_ready concat
  volume_mounts_ready_for_use listed resource =
      if is_empty resource.spec.volume_mounts
      then ok (true, "")
      else after_get_volumes resource (get_volumes listed resource)

  -- DependenciesAvailable, the loop
  unfoldable pub all_available : List StackResource → Bool × String
  unfolding stack_resource_available concat
  all_available [] = (true, "")
  all_available (dep ∷ deps) =
      let rest = all_available deps in
      if not (stack_resource_available dep)
      then (false, concat ("Dependent resource '" ∷ dep.metadata.name ∷ "' not yet available" ∷ []))
      else rest

  abbrev after_get_dependencies :
      StackResource → Result (List StackResource) → Result (Bool × String)
  after_get_dependencies resource (err e) = err e
  after_get_dependencies resource (ok deps) =
      if length deps == length resource.spec.depends_on
      then ok (all_available deps)
      else err "some dependency resource are not yet created"

  -- DependenciesAvailable
  unfoldable pub dependencies_available :
      Result (List StackResource) → StackResource → Result (Bool × String)
  unfolding get_dependencies all_available
  dependencies_available listed resource =
      if is_empty resource.spec.depends_on
      then ok (true, "")
      else after_get_dependencies resource (get_dependencies listed resource)
