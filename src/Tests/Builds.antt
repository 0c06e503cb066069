-- ===== src/Tests/Builds.antt =====
-- Names, tags and references of the builds of one resource.
use cluster_agent.Prelude.{
  ◌≡◌, ◌≤◌, refl, String, true, false, Option, none, some, [], ◌∷◌, Result, ok, Char, chars,
  is_char, length, arith, if◌then◌else◌,
}
use cluster_agent.Api.Meta.{cond_true, is_condition_true}
use cluster_agent.Api.Meta.Listed.{listed}
use cluster_agent.Api.StackResource.{BuildSpec, ImageRepositorySpec, get_source_revision_string}
use cluster_agent.Api.ImageBuild.{ImageBuild, phase_pending}
use cluster_agent.Api.ImageBuild.Names.{
  Digests, image_build_name, build_job_name, build_inputs_hash, image_build_name_max_len,
}
use cluster_agent.Api.ImageBuild.Names.Labels.{IsLabel}
use cluster_agent.Api.ImageBuild.Names.Bounds.{
  IsDigest, image_build_name-IsLabel, image_build_name_separates,
}
use cluster_agent.Registry.Reference.{
  ClusterRegistryView, ResolvedRepository, resolved, resolve_tag, resolve_image_repository,
}
use cluster_agent.Registry.Reference.Tags.{IsReadyRegistry, resolve_cluster_means}

-- The one capital letter of the samples.
abbrev pub lower_s : Char → Char
lower_s c = if is_char c "S" then "s" else c

abbrev pub digests : Digests
digests = record {
  of_build_spec = λ spec. chars "0a1b2c3d4e";
  of_image_build_spec = λ spec. chars "9f8e7d6c5b";
}

abbrev pub repository : ImageRepositorySpec
repository = record {
  cluster_registry_ref = some "internal";
  external = none;
  repository = "shop/web";
  fixed_tag = none;
  auth = none;
}

abbrev pub build_spec : BuildSpec
build_spec = record {
  source_context = record {
    volume = none;
    git = some (record { repo_url = "https://example.org/shop.git"; auth = none });
  };
  build_context = "/";
  docker_file_path = "Dockerfile";
  source_revision = record {
    volume = none;
    git_repo = some (record { branch = "main"; tag = ""; commit = "4f2a9c1" });
  };
  repository = repository;
  build_args = [];
}

abbrev pub pending_build : ImageBuild
pending_build = record {
  metadata = record {
    name = "shop-4f2a9c1-0a1b2c3d";
    namespace = "shop";
    uid = "b-1";
    generation = 1;
    labels = [];
    annotations = [];
  };
  deletion_timestamp = none;
  creation_timestamp = 7;
  finalizers = "builds.stackdome.io/registry-image-cleanup" ∷ [];
  owner_uids = "r-1" ∷ [];
  spec = record {
    resource_name = "Shop";
    source_revision = build_spec.source_revision;
    build_context = record {
      dockerfile_path = "Dockerfile";
      context_path = "/";
      context_source = build_spec.source_context;
    };
    repository = repository;
    build_args = [];
    cancelled = false;
  };
  status = record {
    observed_generation = 0;
    conditions = [];
    phase = phase_pending;
    build_source_revision = "";
    image_url = "";
    status_hash = "";
    last_build_failure_detail = none;
  };
}

build_spec-IsDigest : IsDigest (digests.of_build_spec build_spec)
build_spec-IsDigest = record {
  alnum = (refl, (refl, (refl, (refl, (refl, (refl, (refl, (refl, (refl, (refl, tt))))))))));
  long = omega arith;
}

pending_build-IsDigest : IsDigest (digests.of_image_build_spec pending_build.spec)
pending_build-IsDigest = record {
  alnum = (refl, (refl, (refl, (refl, (refl, (refl, (refl, (refl, (refl, (refl, tt))))))))));
  long = omega arith;
}

shop_name : image_build_name lower_s digests "Shop" build_spec ≡ "shop-4f2a9c1-0a1b2c3d"
unfolding image_build_name get_source_revision_string
shop_name = refl

shop_job : build_job_name lower_s digests pending_build ≡ "shop-9f8e7d6c-build"
unfolding build_job_name
shop_job = refl

image_build_name-IsLabel_example :
    IsLabel (chars (image_build_name lower_s digests "Shop" build_spec))
    × (length (chars (image_build_name lower_s digests "Shop" build_spec))
        ≤ image_build_name_max_len)
image_build_name-IsLabel_example =
    image_build_name-IsLabel lower_s digests "Shop" build_spec build_spec-IsDigest

-- Two names of resources that are sanitized alike.
names_meet :
    image_build_name lower_s digests "Shop" build_spec
    ≡ image_build_name lower_s digests "shop!" build_spec
unfolding image_build_name get_source_revision_string
names_meet = refl

image_build_name_separates_example :
    build_inputs_hash digests.of_build_spec build_spec
    ≡ build_inputs_hash digests.of_build_spec build_spec
image_build_name_separates_example =
    image_build_name_separates lower_s digests "Shop" "shop!" build_spec build_spec
      build_spec-IsDigest build_spec-IsDigest names_meet

-- A registry that is ready.
abbrev pub get_registry : String → Result (Option ClusterRegistryView)
get_registry name = ok (
    some (record {
      conditions =
          record {
            type = "Ready";
            status = cond_true;
            observed_generation = 1;
            reason = "Ready";
            message = "";
          }
          ∷ [];
      internal_url = "registry.internal:5000";
    }))

abbrev pub parse_host : String → Result String
parse_host url = ok "registry.internal:5000"

abbrev target : ResolvedRepository
target = record {
  host = "registry.internal:5000";
  repository = "shop/web";
  tag = "4f2a9c1";
  insecure = true;
  auth_url = "registry.internal:5000";
}

target_resolved :
    resolve_image_repository ⦃ops = listed⦄ lower_s parse_host get_registry repository "4f2a9c1"
    ≡ resolved target
unfolding resolve_image_repository listed is_condition_true
target_resolved = refl

resolve_cluster_means_example :
    IsReadyRegistry ⦃ops = listed⦄ parse_host (get_registry "internal") target
    × (target ≡ record {
      host = target.host;
      repository = repository.repository;
      tag = resolve_tag lower_s repository.fixed_tag "4f2a9c1";
      insecure = true;
      auth_url = target.host;
    })
resolve_cluster_means_example =
    resolve_cluster_means ⦃ops = listed⦄ lower_s parse_host get_registry repository "4f2a9c1"
      "internal" target refl target_resolved
