-- ===== src/StackResource/Builds.antt =====
-- internal/controller/stackresource/image_build_reconciler.go: the ImageBuilds of a StackResource.
-- The answers of the API are arguments. Builds of the same age may come in any order in the source.

pub mod Kept
use cluster_agent.Prelude.{
  ℕ, String, Bool, true, false, not, Option, some, none, List, [], ◌∷◌, ◌++◌, map, keep, exists,
  drop, length, ltb, leb, sort_by, insert, contains, str_eq, concat, Result, ok, err, Map, Char,
  ◌&&◌, ◌||◌, if◌then◌else◌,
}
use cluster_agent.Api.Meta.{Condition, ConditionOps, is_cond_true}
use cluster_agent.Api.StackResource.{StackResource, BuildSpec, build_ready, reason_build_failed}
use cluster_agent.Api.ImageBuild.{
  ImageBuild, ImageBuildStatus, BuildPhase, phase_success, phase_failed, phase_unset, is_success,
  BuildStatusCondition, build_available, build_failed, build_cancelled, condition_text,
}
use cluster_agent.Api.ImageBuild.Names.{Digests, image_build_name}
use cluster_agent.Controller.Verdict.{VerdictCollector, report_not_ready, report_failed}
use cluster_agent.Controller.SubReconciler.{SubReconcilerResult, result_continue, result_stop}
use cluster_agent.StackResource.Conditions.{set_resource_condition}
use cluster_agent.ImageBuild.Reconcile.{first_error}

pub record BuildsCalls : Type 0 where
  pub lower : Char → Char
  pub digests : Digests
  pub history_limit : ℕ
  pub list_builds : StackResource → Result (List ImageBuild)
  pub get_build : (name namespace : String) → Result (Option ImageBuild)
  pub update_build : ImageBuild → Option String
  pub delete_build : ImageBuild → Option String
  pub set_owner : StackResource → ImageBuild → Result ImageBuild
  pub create_build : ImageBuild → Option String

-- What the sub-reconciler asks to be written, in order.
pub data BuildWrite : Type 0 where
  cancels deletes creates : ImageBuild → BuildWrite

pub record BuildsEnded : Type 0 where
  pub result : Result SubReconcilerResult
  pub resource : StackResource
  pub verdicts : VerdictCollector
  pub writes : List BuildWrite

-- isImageBuildComplete
abbrev pub is_image_build_complete : ImageBuild → Bool
is_image_build_complete b = is_success b.status.phase

abbrev is_failed_phase : BuildPhase → Bool
is_failed_phase phase_failed = true
is_failed_phase _ = false

-- imageBuildFailed
abbrev pub image_build_failed : ImageBuild → Bool
image_build_failed b = is_failed_phase b.status.phase

-- isImageBuildTerminal: the loop over the conditions
unfoldable pub is_image_build_terminal : ImageBuild → Bool
unfolding exists
is_image_build_terminal b =
    exists
      (λ c.
        (str_eq c.type "Available" || str_eq c.type "Failed" || str_eq c.type "Cancelled")
        && is_cond_true c.status)
      b.status.conditions

-- isOwnedByStackResource
unfoldable pub is_owned_by_stack_resource : ImageBuild → StackResource → Bool
unfolding exists
is_owned_by_stack_resource b resource =
    exists (λ uid. str_eq uid resource.metadata.uid) b.owner_uids

-- createImageBuildLabels and createImageBuildAnnotations
unfoldable pub create_image_build_labels : StackResource → Map String
unfolding insert
create_image_build_labels resource =
    insert (insert resource.metadata.labels "stackdome.io/component" "image-build")
      "stackdome.io/part-of" resource.metadata.name

-- cancelStaleImageBuilds: the test of the filter
unfoldable pub is_stale : StackResource → String → ImageBuild → Bool
unfolding is_owned_by_stack_resource is_image_build_terminal
is_stale resource current b =
    is_owned_by_stack_resource b resource
    && not b.spec.cancelled
    && not (is_image_build_terminal b)
    && not (str_eq b.metadata.name current)

abbrev pub cancelled_copy : ImageBuild → ImageBuild
cancelled_copy b = record b { spec = record b.spec { cancelled = true } }

-- enforceImageBuildRetention: the test in the loop, and the order of the sort
unfoldable pub is_expired : StackResource → String → ImageBuild → Bool
unfolding is_owned_by_stack_resource is_image_build_terminal
is_expired resource current b =
    is_image_build_terminal b
    && is_owned_by_stack_resource b resource
    && not (str_eq b.metadata.name current)

abbrev pub newest_build_first : ImageBuild → ImageBuild → Bool
newest_build_first a b = leb b.creation_timestamp a.creation_timestamp

-- The builds that each of the two steps chooses.
unfoldable pub stale_builds : StackResource → String → List ImageBuild → List ImageBuild
unfolding keep is_stale
stale_builds resource current builds = map cancelled_copy (keep (is_stale resource current) builds)

unfoldable pub expired_builds : ℕ → StackResource → String → List ImageBuild → List ImageBuild
unfolding keep is_expired sort_by
expired_builds limit resource current builds =
    if ltb 0 limit && ltb limit (length builds)
    then keep (is_expired resource current) (drop limit (sort_by newest_build_first builds))
    else []

-- The ImageBuild that createImageBuild makes, before its owner is set. Its status is empty, and its
-- UID and times are the API's to set.
unfoldable pub new_image_build : String → StackResource → BuildSpec → ImageBuild
unfolding create_image_build_labels
new_image_build name resource spec = record {
  metadata = record {
    name = name;
    namespace = resource.metadata.namespace;
    uid = "";
    generation = 0;
    labels = create_image_build_labels resource;
    annotations = resource.metadata.annotations;
  };
  deletion_timestamp = none;
  creation_timestamp = 0;
  finalizers = [];
  owner_uids = [];
  spec = record {
    resource_name = resource.metadata.name;
    source_revision = spec.source_revision;
    build_context = record {
      dockerfile_path = spec.docker_file_path;
      context_path = spec.build_context;
      context_source = spec.source_context;
    };
    repository = spec.repository;
    build_args = spec.build_args;
    cancelled = false;
  };
  status = record {
    observed_generation = 0;
    conditions = [];
    phase = phase_unset;
    build_source_revision = "";
    image_url = "";
    status_hash = "";
    last_build_failure_detail = none;
  };
}

module _ ⦃ops : ConditionOps⦄ (calls : BuildsCalls) (resource : StackResource)
    (verdicts : VerdictCollector) where
  abbrev pub builds_error : List BuildWrite → String → BuildsEnded
  builds_error writes e = record {
    result = err e;
    resource = resource;
    verdicts = verdicts;
    writes = writes;
  }

  abbrev pub after_create_build : List BuildWrite → ImageBuild → Option String → BuildsEnded
  after_create_build writes b (some e) =
      builds_error (writes ++ (creates b ∷ [])) (concat ("failed to create ImageBuild: " ∷ e ∷ []))
  after_create_build writes b none = record {
    result = ok result_stop;
    resource = resource;
    verdicts =
        report_not_ready verdicts "ImageBuildInProgress"
          "Image build created; waiting for completion";
    writes = writes ++ (creates b ∷ []);
  }

  abbrev pub after_set_owner : List BuildWrite → Result ImageBuild → BuildsEnded
  after_set_owner writes (err e) =
      builds_error writes (concat ("failed to set controller reference: " ∷ e ∷ []))
  after_set_owner writes (ok b) = after_create_build writes b (calls.create_build b)

  -- createImageBuild
  unfoldable pub create_image_build : List BuildWrite → String → BuildSpec → BuildsEnded
  unfolding new_image_build concat
  create_image_build writes name spec =
      after_set_owner writes (calls.set_owner resource (new_image_build name resource spec))

  abbrev pub after_delete_cancelled :
      List BuildWrite → String → BuildSpec → Option String → BuildsEnded
  after_delete_cancelled writes name spec (some e) =
      builds_error writes (concat ("failed to delete cancelled ImageBuild: " ∷ e ∷ []))
  after_delete_cancelled writes name spec none = create_image_build writes name spec

  -- The current build that is there and is not cancelled.
  unfoldable pub judge_build : List BuildWrite → ImageBuild → BuildsEnded
  unfolding concat
  judge_build writes b =
      if image_build_failed b
      then record {
        result = ok result_stop;
        resource =
            set_resource_condition resource build_ready false reason_build_failed
              "application build failed terminally";
        verdicts =
            report_failed verdicts reason_build_failed
              (concat ("ImageBuild " ∷ b.metadata.name ∷ " reached terminal Failed phase" ∷ []));
        writes = writes;
      }
      else if is_image_build_complete b
      then record {
        result = ok result_continue;
        resource = resource;
        verdicts = verdicts;
        writes = writes;
      }
      else record {
        result = ok result_stop;
        resource = resource;
        verdicts =
            report_not_ready verdicts "ImageBuildInProgress" "Image build is still in progress";
        writes = writes;
      }

  abbrev pub after_get_current :
      List BuildWrite → String → BuildSpec → Result (Option ImageBuild) → BuildsEnded
  after_get_current writes name spec (err e) =
      builds_error writes (concat ("failed to get ImageBuild: " ∷ e ∷ []))
  after_get_current writes name spec (ok none) = create_image_build writes name spec
  after_get_current writes name spec (ok (some b)) =
      if b.spec.cancelled
      then after_delete_cancelled (writes ++ (deletes b ∷ [])) name spec (calls.delete_build b)
      else judge_build writes b

  abbrev pub after_retention : List BuildWrite → String → BuildSpec → Option String → BuildsEnded
  after_retention writes name spec (some e) = builds_error writes e
  after_retention writes name spec none =
      after_get_current writes name spec (calls.get_build name resource.metadata.namespace)

  abbrev pub after_cancel :
      List BuildWrite → String → BuildSpec → List ImageBuild → Option String → BuildsEnded
  after_cancel writes name spec builds (some e) = builds_error writes e
  after_cancel writes name spec builds none =
      let expired = expired_builds calls.history_limit resource name builds in
      after_retention (writes ++ map deletes expired) name spec
        (first_error (map calls.delete_build expired))

  abbrev pub after_list_builds : String → BuildSpec → Result (List ImageBuild) → BuildsEnded
  after_list_builds name spec (err e) =
      builds_error [] (concat ("failed to list ImageBuilds: " ∷ e ∷ []))
  after_list_builds name spec (ok builds) =
      let stale = stale_builds resource name builds in
      after_cancel (map cancels stale) name spec builds (first_error (map calls.update_build stale))

  -- The pass of a resource by its build specification.
  abbrev pub by_build_spec : Option BuildSpec → BuildsEnded
  by_build_spec none = record {
    result = ok result_continue;
    resource = resource;
    verdicts = verdicts;
    writes = [];
  }
  by_build_spec (some spec) =
      after_list_builds (image_build_name calls.lower calls.digests resource.metadata.name spec)
        spec (calls.list_builds resource)

  -- reconcile
  unfoldable pub reconcile_image_builds : BuildsEnded
  unfolding stale_builds expired_builds create_image_build judge_build concat
  reconcile_image_builds = by_build_spec resource.spec.build_spec
