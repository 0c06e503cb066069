-- ===== src/ImageBuild/Reconcile/Lost.antt =====
-- What a pass over an ImageBuild records of a build argument that cannot be resolved.
use cluster_agent.Prelude.{
  String, ◌≡◌, ◌∙◌, ap, refl, true, false, Option, some, none, List, [], ◌∷◌, ◌++◌, ok, err, All,
  concat,
}
use cluster_agent.Api.Meta.{ConditionOps, SecretKeySelector, cond_true, is_condition_true-set}
use cluster_agent.Api.StackResource.{BuildArg, GitRepoSource}
use cluster_agent.Api.ImageBuild.{ImageBuild, build_failed}
use cluster_agent.ImageBuild.Calls.{BuildCalls, BuildSource, git_source, Secret}
use cluster_agent.ImageBuild.Status.{
  build_condition_true, image_build_in_terminal_state, validate_git_revision,
  report_image_build_status,
}
use cluster_agent.ImageBuild.Inputs.{build_arg_value, resolve_build_args, get_registry_auth_secrets}
use cluster_agent.ImageBuild.Job.{stops_with}
use cluster_agent.ImageBuild.Sources.{build_from, after_auth, after_args, reconcile_with_git_source}
use cluster_agent.ImageBuild.Reconcile.{
  reconcile, reconcile_source, reconcile_found, has_finalizer, by_deletion, finish_pass,
  from_source,
}

module _ ⦃ops : ConditionOps⦄ (calls : BuildCalls) (b : ImageBuild) where
  -- The build argument is resolved.
  abbrev pub HasValue : BuildArg → Type 0
  HasValue arg = (v : String) × (build_arg_value calls b arg ≡ (ok v, b))

  abbrev missing : BuildArg → String
  missing arg = concat ("secret not found for build arg " ∷ arg.name ∷ [])

  -- The build with the failure that the pass records.
  abbrev reported : ImageBuild
  reported =
      report_image_build_status calls.print_hash b build_failed cond_true "BuildArgSecretNotFound"

  reported_failed : build_condition_true reported build_failed ≡ true
  unfolding build_condition_true report_image_build_status
  reported_failed = simp is_condition_true-set

  resolve_missing :
      (before after : List BuildArg) (arg : BuildArg)
      → All HasValue before
      → build_arg_value calls b arg ≡ (err (missing arg), reported)
      → resolve_build_args calls b (before ++ arg ∷ after) ≡ (err (missing arg), reported)
  unfolding resolve_build_args
  resolve_missing [] after arg h e = rw e refl
  resolve_missing (x ∷ before) after arg ((v, p), h) e =
      rw (p, resolve_missing before after arg h e) refl

  module _ (before after : List BuildArg) (arg : BuildArg) (ref : SecretKeySelector)
      (args : b.spec.build_args ≡ before ++ arg ∷ after) (resolved : All HasValue before)
      (from : arg.value_from ≡ some ref)
      (gone : calls.get_secret ref.name b.metadata.namespace ≡ ok none) where
    arg_missing : build_arg_value calls b arg ≡ (err (missing arg), reported)
    unfolding build_arg_value
    arg_missing = rw (from, build_arg_value, gone) refl

    build_missing :
        (source : BuildSource) (auth : Option Secret × String)
        → get_registry_auth_secrets calls b ≡ ok auth
        → build_from calls b source ≡ stops_with reported (missing arg)
    unfolding build_from
    build_missing source auth h =
        ap (after_auth calls b source) h
        ∙ ap (after_args calls source auth) (
            ap (resolve_build_args calls b) args
            ∙ resolve_missing before after arg resolved arg_missing)

    module _ (repo : GitRepoSource) (auth : Option Secret × String)
        (running : image_build_in_terminal_state b ≡ false) (wanted : b.spec.cancelled ≡ false)
        (git : b.spec.build_context.context_source.git ≡ some repo)
        (valid : validate_git_revision calls.lower b.spec.source_revision.git_repo ≡ true)
        (secrets : get_registry_auth_secrets calls b ≡ ok auth) where
      reconcile_missing : reconcile calls b ≡ stops_with reported (missing arg)
      unfolding reconcile reconcile_source reconcile_with_git_source
      reconcile_missing =
          simp (running, wanted)
            (ap (λ o. from_source calls b o b.spec.build_context.context_source.volume) git
              ∙ (simp valid
                  (build_missing (git_source repo b.spec.source_revision.git_repo) auth secrets)))

      ended :
          b.deletion_timestamp ≡ none
          → has_finalizer b ≡ true
          → reconcile_found calls b ≡ record { result = err (missing arg); writes = [] }
      unfolding reconcile_found
      ended alive held =
          ap (by_deletion calls b) alive ∙ (simp held (ap (finish_pass calls) reconcile_missing))

      -- Where the secret of a build argument is missing, the pass records the failure in the status
      -- and returns an error, and asks for nothing to be written, so that the record is lost.
      -- The build is not deleted, has its finalizer, is not over or
      -- cancelled, and builds a valid revision from git with its registry's credentials; the
      -- arguments before the one with the missing secret are resolved.
      pub missing_secret_is_lost :
          b.deletion_timestamp ≡ none
          → has_finalizer b ≡ true
          → (build_condition_true (reconcile calls b).build build_failed ≡ true)
            × (e : String) × ((reconcile_found calls b).result ≡ err e)
            × ((reconcile_found calls b).writes ≡ [])
      unfolding build_condition_true reconcile_found
      missing_secret_is_lost alive held =
          let e = reconcile_missing in
          (
            ap (λ x. build_condition_true x.build build_failed) e ∙ reported_failed,
            missing arg,
            ap (λ x. x.result) (ended alive held),
            ap (λ x. x.writes) (ended alive held),
          )
