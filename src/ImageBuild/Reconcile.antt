-- ===== src/ImageBuild/Reconcile.antt =====
-- internal/controller/imagebuild/imagebuild_controller.go: a whole pass over an ImageBuild.
pub mod Terminal
pub mod Settled
pub mod Stored
pub mod Deleted
pub mod Lost
use cluster_agent.Prelude.{
  String, Bool, true, false, not, Option, some, none, List, [], ◌∷◌, ◌++◌, map, keep, Result, ok,
  err, str_eq, contains, at_or_empty, if◌then◌else◌,
}
use cluster_agent.Api.Meta.{ConditionOps, Time, cond_true}
use cluster_agent.Api.StackResource.{GitRepoSource}
use cluster_agent.Api.ImageBuild.{ImageBuild, phase_cancelled, build_cancelled}
use cluster_agent.Controller.SubReconciler.{CtrlResult, done}
use cluster_agent.ImageBuild.Calls.{
  BuildCalls, BuildJob, Secret, RegistryCredentialsRef, Write, JobWrite, writes_job, deletes_job,
  deletes_image, updates, updates_status,
}
use cluster_agent.ImageBuild.Status.{
  set_phase, report_image_build_status, image_build_in_terminal_state,
}
use cluster_agent.ImageBuild.Job.{Ended, stops_with, ends_with}
use cluster_agent.ImageBuild.Sources.{reconcile_with_git_source, reconcile_with_volume_source}

abbrev pub image_build_cleanup_finalizer : String
image_build_cleanup_finalizer = "builds.stackdome.io/registry-image-cleanup"

-- The jobs that the build controls: metav1.IsControlledBy.
abbrev pub controls : ImageBuild → BuildJob → Bool
controls b job = elim job.controller_uid [ none ↦ false | some uid ↦ str_eq uid b.metadata.uid ]

-- errgroup: every call is made, and Wait returns an error if any call gave one. The source returns
-- the first in time, here it is the first of the list.
abbrev pub first_error : List (Option String) → Option String
first_error [] = none
first_error (none ∷ es) = first_error es
first_error (some e ∷ es) = some e

abbrev pub result_of_error : Option String → Result CtrlResult
result_of_error none = ok done
result_of_error (some e) = err e

-- A password or user name that is missing in the secret is empty.
abbrev pub credentials_of :
    RegistryCredentialsRef → Result (Option Secret) → Result (String × String)
credentials_of ref (err e) = err e
credentials_of ref (ok none) = ok ("", "")
credentials_of ref (ok (some secret)) =
    ok (at_or_empty secret.contents ref.username_key, at_or_empty secret.contents ref.password_key)

-- registryCredentials
unfoldable pub registry_credentials :
    BuildCalls → Option RegistryCredentialsRef → Result (String × String)
unfolding at_or_empty
registry_credentials calls none = ok ("", "")
registry_credentials calls (some ref) =
    credentials_of ref (calls.get_secret ref.secret_name ref.secret_namespace)

-- What cleaning up comes to: an error if any, and the deletions that were asked for.
abbrev pub Cleanup : Type 0
Cleanup = Option String × List Write

abbrev pub delete_with : BuildCalls → String → Result (String × String) → Cleanup
delete_with calls url (err e) = (some e, [])
delete_with calls url (ok (username, password)) =
    (calls.delete_image url username password, deletes_image url ∷ [])

abbrev pub after_cluster_registry :
    BuildCalls → String → Result (Option (Option RegistryCredentialsRef)) → Cleanup
after_cluster_registry calls url (err e) = (some e, [])
after_cluster_registry calls url (ok none) = (none, [])
after_cluster_registry calls url (ok (some auth)) =
    delete_with calls url (registry_credentials calls auth)

-- Only a build that pushed to a cluster registry has an image to delete.
abbrev pub cleanup_from : BuildCalls → ImageBuild → Option String → Cleanup
cleanup_from calls b none = (none, [])
cleanup_from calls b (some name) =
    if str_eq b.status.image_url ""
    then (none, [])
    else after_cluster_registry calls b.status.image_url (calls.get_registry_credentials name)

-- cleanupImage
unfoldable pub cleanup_image : BuildCalls → ImageBuild → Cleanup
unfolding registry_credentials
cleanup_image calls b = cleanup_from calls b b.spec.repository.cluster_registry_ref

-- controllerutil.RemoveFinalizer and AddFinalizer
abbrev pub remove_finalizer : ImageBuild → ImageBuild
remove_finalizer b = record b {
  finalizers = keep (λ f. not (str_eq f image_build_cleanup_finalizer)) b.finalizers;
}

abbrev pub add_finalizer : ImageBuild → ImageBuild
add_finalizer b = record b { finalizers = b.finalizers ++ (image_build_cleanup_finalizer ∷ []) }

abbrev pub has_finalizer : ImageBuild → Bool
has_finalizer b = contains b.finalizers image_build_cleanup_finalizer

-- How a whole pass ends: what it returns and what it asked to be written, in order.
pub record PassEnded : Type 0 where
  pub result : Result CtrlResult
  pub writes : List Write

abbrev pub after_cleanup : BuildCalls → ImageBuild → Cleanup → PassEnded
after_cleanup calls b (some e, writes) = record { result = err e; writes = writes }
after_cleanup calls b (none, writes) = record {
  result = result_of_error (calls.update (remove_finalizer b));
  writes = writes ++ (updates (remove_finalizer b) ∷ []);
}

-- finalize
unfoldable pub finalize : BuildCalls → ImageBuild → PassEnded
unfolding contains cleanup_image keep
finalize calls b =
    if not (has_finalizer b)
    then record { result = ok done; writes = [] }
    else after_cleanup calls b (cleanup_image calls b)

module _ ⦃ops : ConditionOps⦄ (calls : BuildCalls) where
  abbrev pub after_jobs : ImageBuild → Result (List BuildJob) → Ended
  after_jobs b (err e) = stops_with b e
  after_jobs b (ok jobs) =
      let owned = keep (controls b) jobs in
      record {
        result = result_of_error (first_error (map calls.delete_job owned));
        build =
            report_image_build_status calls.print_hash (set_phase b phase_cancelled) build_cancelled
              cond_true "BuildCancelled";
        writes = map deletes_job owned;
      }

  -- reconcileCancellation
  unfoldable pub reconcile_cancellation : ImageBuild → Ended
  unfolding keep
  reconcile_cancellation b = after_jobs b (calls.list_jobs b.metadata.namespace)

  -- the switch of reconcile on the source of the context
  abbrev pub from_source : ImageBuild → Option GitRepoSource → Option String → Ended
  from_source b (some repo) volume = reconcile_with_git_source calls b repo
  from_source b none (some volume) = reconcile_with_volume_source calls b volume
  from_source b none none = stops_with b "no context source specified for image build"

  unfoldable pub reconcile_source : ImageBuild → Ended
  unfolding reconcile_with_git_source reconcile_with_volume_source
  reconcile_source b =
      let source = b.spec.build_context.context_source in from_source b source.git source.volume

  -- reconcile
  unfoldable pub reconcile : ImageBuild → Ended
  unfolding image_build_in_terminal_state reconcile_cancellation reconcile_source
  reconcile b =
      if image_build_in_terminal_state b
      then ends_with b done
      else if b.spec.cancelled
      then reconcile_cancellation b
      else reconcile_source b

  abbrev pub store : CtrlResult → Option String → Result CtrlResult
  store res none = ok res
  store res (some e) = err e

  -- The end of a pass: an error is returned before the status is stored.
  abbrev pub after_reconcile : Result CtrlResult → ImageBuild → List JobWrite → PassEnded
  after_reconcile (err e) b writes = record { result = err e; writes = map writes_job writes }
  after_reconcile (ok res) b writes = record {
    result = store res (calls.update_status b);
    writes = map writes_job writes ++ (updates_status b ∷ []);
  }

  abbrev pub finish_pass : Ended → PassEnded
  finish_pass e = after_reconcile e.result e.build e.writes

  -- The object that was read, by its deletion time.
  abbrev pub by_deletion : ImageBuild → Option Time → PassEnded
  by_deletion b (some t) = finalize calls b
  by_deletion b none =
      if not (has_finalizer b)
      then record {
        result = result_of_error (calls.update (add_finalizer b));
        writes = updates (add_finalizer b) ∷ [];
      }
      else finish_pass (reconcile b)

  -- Reconcile, on the object that was read
  unfoldable pub reconcile_found : ImageBuild → PassEnded
  unfolding finalize contains reconcile
  reconcile_found b = by_deletion b b.deletion_timestamp
