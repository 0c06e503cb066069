-- ===== src/Tests/ImageBuilds.antt =====
-- Passes over ImageBuilds, and over a resource that is built from source.
use cluster_agent.Prelude.{
  String, ◌≡◌, refl, true, false, none, some, [], ◌∷◌, ok, err, All, arith, contains,
}
use cluster_agent.Api.Meta.{cond_true, is_condition_true}
use cluster_agent.Api.Meta.Listed.{listed}
use cluster_agent.Api.StackResource.{StackResource, BuildArg}
use cluster_agent.Api.ImageBuild.{ImageBuild, phase_success, build_failed}
use cluster_agent.Api.ImageBuild.Names.{image_build_name}
use cluster_agent.ImageBuild.Calls.{BuildCalls, BuildJob}
use cluster_agent.ImageBuild.Status.{
  build_condition_true, image_build_in_terminal_state, validate_git_revision,
}
use cluster_agent.ImageBuild.Reconcile.{reconcile, reconcile_found, finalize, has_finalizer}
use cluster_agent.ImageBuild.Reconcile.Terminal.{IsOpen, IsAgreed-of_IsOpen}
use cluster_agent.ImageBuild.Reconcile.Stored.{
  OfStored, IsStored, IsUntouched, reconcile_stores_agreed, terminal-IsUntouched,
}
use cluster_agent.ImageBuild.Reconcile.Lost.{missing_secret_is_lost}
use cluster_agent.ImageBuild.Inputs.{build_arg_value, get_registry_auth_secrets}
use cluster_agent.ImageBuild.Reconcile.Deleted.{IsFinalWrite, finalize-IsFinalWrite}
use cluster_agent.StackResource.Builds.{BuildsCalls, reconcile_image_builds}
use cluster_agent.StackResource.Builds.Kept.{IsCareful, reconcile_image_builds-IsCareful}
use cluster_agent.Tests.Samples.{web, no_verdicts}
use cluster_agent.Tests.Builds.{
  lower_s, digests, build_spec, pending_build, get_registry, parse_host,
}

-- The job of a build, complete.
abbrev complete_job : BuildJob
complete_job = record {
  name = "shop-9f8e7d6c-build";
  namespace = "shop";
  annotations = [];
  controller_uid = some "b-1";
  conditions = record { type = "Complete"; is_true = true } ∷ [];
}

abbrev calls : BuildCalls
calls = record {
  lower = lower_s;
  parse_host = parse_host;
  digests = digests;
  print_hash = λ s. "h";
  sanitize_message = λ s. s;
  get_volume = λ name namespace. err "volume not found";
  get_secret = λ name namespace. ok none;
  get_registry = get_registry;
  get_registry_credentials = λ name. ok (some none);
  get_job = λ name namespace. ok (some complete_job);
  list_jobs = λ namespace. ok (complete_job ∷ []);
  list_pods = λ job. ok [];
  generate_job = λ params. ok complete_job;
  set_owner = λ b job. ok job;
  create_job = λ job. none;
  delete_job = λ job. none;
  delete_image = λ url username password. none;
  update = λ b. none;
  update_status = λ b. none;
}

pending_build-IsOpen : IsOpen ⦃ops = listed⦄ pending_build
unfolding build_condition_true is_condition_true listed
pending_build-IsOpen = record {
  not_available = refl;
  not_failed = refl;
  not_cancelled = refl;
  no_success = λ h. ground (arith, h);
  no_failure = λ h. ground (arith, h);
  no_cancel = λ h. ground (arith, h);
}

reconcile_stores_agreed_example :
    All
      (OfStored (IsStored ⦃ops = listed⦄ calls pending_build))
      (reconcile_found ⦃ops = listed⦄ calls pending_build).writes
reconcile_stores_agreed_example =
    reconcile_stores_agreed ⦃ops = listed⦄ calls pending_build
      (IsAgreed-of_IsOpen ⦃ops = listed⦄ pending_build pending_build-IsOpen)

-- The build that has pushed its image.
abbrev pushed_build : ImageBuild
pushed_build = record pending_build {
  status = record pending_build.status {
    phase = phase_success;
    image_url = "registry.internal:5000/shop/web:4f2a9c1";
    conditions =
        record {
          type = "Available";
          status = cond_true;
          observed_generation = 1;
          reason = "BuildComplete";
          message = "Image build complete";
        }
        ∷ [];
  };
}

pushed_build_is_over : image_build_in_terminal_state ⦃ops = listed⦄ pushed_build ≡ true
unfolding image_build_in_terminal_state is_condition_true listed
pushed_build_is_over = refl

terminal-IsUntouched_example :
    All
      (IsUntouched ⦃ops = listed⦄ calls pushed_build)
      (reconcile_found ⦃ops = listed⦄ calls pushed_build).writes
terminal-IsUntouched_example =
    terminal-IsUntouched ⦃ops = listed⦄ calls pushed_build pushed_build_is_over

finalize-IsFinalWrite_example :
    All (IsFinalWrite calls pushed_build) (finalize calls pushed_build).writes
finalize-IsFinalWrite_example = finalize-IsFinalWrite calls pushed_build

-- A build with an argument from a secret that is not there.
abbrev mode : BuildArg
mode = record { name = "MODE"; value = "release"; value_from = none }

abbrev token : BuildArg
token = record {
  name = "TOKEN";
  value = "";
  value_from = some (record { name = "shop-secrets"; key = "token" });
}

abbrev secret_build : ImageBuild
secret_build = record pending_build {
  spec = record pending_build.spec { build_args = mode ∷ token ∷ [] };
}

finalizer_there : has_finalizer secret_build ≡ true
unfolding contains
finalizer_there = refl

mode_resolved :
    build_arg_value ⦃ops = listed⦄ calls secret_build mode ≡ (ok "release", secret_build)
unfolding build_arg_value
mode_resolved = refl

not_over : image_build_in_terminal_state ⦃ops = listed⦄ secret_build ≡ false
unfolding image_build_in_terminal_state build_condition_true is_condition_true listed
not_over = refl

revision_valid : validate_git_revision lower_s secret_build.spec.source_revision.git_repo ≡ true
unfolding validate_git_revision
revision_valid = refl

no_registry_secret : get_registry_auth_secrets calls secret_build ≡ ok (none, "")
unfolding get_registry_auth_secrets
no_registry_secret = refl

missing_secret_is_lost_example :
    (build_condition_true ⦃ops = listed⦄
        (reconcile ⦃ops = listed⦄ calls secret_build).build
        build_failed
      ≡ true)
    × (e : String) × ((reconcile_found ⦃ops = listed⦄ calls secret_build).result ≡ err e)
    × ((reconcile_found ⦃ops = listed⦄ calls secret_build).writes ≡ [])
missing_secret_is_lost_example =
    missing_secret_is_lost ⦃ops = listed⦄ calls secret_build (mode ∷ []) [] token
      (record { name = "shop-secrets"; key = "token" }) refl (("release", mode_resolved), tt) refl
      refl (record { repo_url = "https://example.org/shop.git"; auth = none }) (none, "") not_over
      refl refl revision_valid no_registry_secret refl finalizer_there

-- A resource whose build has succeeded, and an older build of it.
abbrev built_web : StackResource
built_web = record web { spec = record web.spec { build_spec = some build_spec } }

abbrev builds_calls : BuildsCalls
builds_calls = record {
  lower = lower_s;
  digests = digests;
  history_limit = 3;
  list_builds = λ r. ok (pushed_build ∷ pending_build ∷ []);
  get_build = λ name namespace. ok (some pushed_build);
  update_build = λ b. none;
  delete_build = λ b. none;
  set_owner = λ r b. ok b;
  create_build = λ b. none;
}

reconcile_image_builds-IsCareful_example :
    IsCareful builds_calls built_web
      (image_build_name lower_s digests built_web.metadata.name build_spec)
      (reconcile_image_builds ⦃ops = listed⦄ builds_calls built_web no_verdicts)
reconcile_image_builds-IsCareful_example =
    reconcile_image_builds-IsCareful ⦃ops = listed⦄ builds_calls built_web no_verdicts build_spec
      refl
