-- ===== src/Storage/VolumeSync/Ids.antt =====
-- The identity of a build under which a volume records that it was copied.
use cluster_agent.Prelude.{
  ℕ, zero, suc, Char, [], ◌∷◌, ◌↔◌, of_chars-chars, ◌≡◌, ◌≤◌, refl, sym, ap, ◌∙◌, String, true,
  some, none, List, ok, arith, chars, of_chars, chars-of_chars, length, length-take, take,
  lookup-insert, eq_iff,
}
use cluster_agent.Api.Meta.{ConditionOps, is_condition_true}
use cluster_agent.Api.StackResource.{StackResource, BuildStatus}
use cluster_agent.Api.ImageBuild.{
  ImageBuild, build_available, condition_text, truncate_string,
  short_build_src_revision_from_status,
}
use cluster_agent.Api.Volume.{
  Volume, VolumeSource, BuildArtifactSource, sync_completed, set_build_artifact_sync_status,
}
use cluster_agent.StackResource.Dependencies.{
  is_volume_ready, artifacts_ready, build_sync_completed_and_upto_date,
}
use cluster_agent.Storage.VolumeSync.{SyncCalls, sync_build_artifacts, after_sync_job}

-- A text that truncation leaves alone is short.
truncate_string_fixed : (s : String) (n : ℕ) → truncate_string s n ≡ s → length (chars s) ≤ n
unfolding truncate_string
truncate_string_fixed s n h =
    let e : chars s ≡ take n (chars s) = ap chars (sym h) ∙ chars-of_chars (take n (chars s)) in
    omega (arith, ap length e, length-take n (chars s))

take_all : (n : ℕ) (s : List Char) → length s ≤ n → take n s ≡ s
take_all zero [] h = refl
take_all (suc n) [] h = refl
take_all zero (c ∷ s) h = ground (arith, h)
take_all (suc n) (c ∷ s) h = ap (λ t. c ∷ t) (take_all n s (omega (arith, h)))

truncate_string_short : (s : String) (n : ℕ) → length (chars s) ≤ n → truncate_string s n ≡ s
unfolding truncate_string
truncate_string_short s n h = ap of_chars (take_all n (chars s) h) ∙ of_chars-chars s

module _ ⦃ops : ConditionOps⦄ (resource : StackResource) (current : BuildStatus) where
  -- A volume of build artifacts alone, under the record that a copying job left.
  artifacts_ready_iff :
      (v : Volume) (id : String)
      → current.available ≡ true
      → ((artifacts_ready
            (set_build_artifact_sync_status v resource.metadata.name id sync_completed)
            resource
            (some current)).0
          ≡ true)
        ↔ (id ≡ current.source_revision)
  unfolding set_build_artifact_sync_status build_sync_completed_and_upto_date
  artifacts_ready_iff v id h = ground (
    arith,
    h,
    lookup-insert v.build_artifact_syncs resource.metadata.name resource.metadata.name
        (record { build_id = id; status = sync_completed }),
    eq_iff resource.metadata.name resource.metadata.name,
    eq_iff id current.source_revision,
  )

-- A volume of build artifacts whose copying job is complete is ready for its resource exactly when
-- the revision that was built has at most seven characters.
pub copied_artifacts_ready_iff :
    ⦃ops : ConditionOps⦄
    → (calls : SyncCalls) → (v : Volume) → (resource : StackResource) → (b : ImageBuild)
    → (current : BuildStatus) → (source : VolumeSource) → (xs : List BuildArtifactSource)
    → is_condition_true b.status.conditions (condition_text build_available) ≡ true
    → calls.set_owner v ≡ none
    → calls.get_job v resource.metadata.name b ≡ ok (some true)
    → v.source ≡ some source
    → source.remote_dir ≡ none
    → source.git_repo ≡ none
    → source.build_artifacts ≡ some xs
    → resource.status.current_build ≡ some current
    → current.available ≡ true
    → current.source_revision ≡ b.status.build_source_revision
    → (w : Volume) × (sync_build_artifacts calls v resource.metadata.name b ≡ ok w)
      × (((is_volume_ready w resource).0 ≡ true)
          ↔ (length (chars b.status.build_source_revision) ≤ 7))
unfolding sync_build_artifacts after_sync_job is_volume_ready short_build_src_revision_from_status
copied_artifacts_ready_iff calls v resource b current source xs av own job src rd gr ba cb ca rev =
    let w =
      set_build_artifact_sync_status v resource.metadata.name
        (short_build_src_revision_from_status b) sync_completed in
    let sync : sync_build_artifacts calls v resource.metadata.name b ≡ ok w =
      ground (arith, av, own, job) in
    let ready : is_volume_ready w resource ≡ artifacts_ready w resource (some current) =
      ground (arith, src, rd, gr, ba, cb) in
    let same = artifacts_ready_iff resource current v (short_build_src_revision_from_status b) ca in
    let fixed = truncate_string_fixed b.status.build_source_revision 7 in
    let short = truncate_string_short b.status.build_source_revision 7 in
    (w, sync, ground (arith, ap (λ r. r.0) ready, same, fixed, short, rev))
