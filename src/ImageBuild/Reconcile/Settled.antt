-- ===== src/ImageBuild/Reconcile/Settled.antt =====
-- What a pass over an ImageBuild may store: a phase that agrees with the conditions, and a success
-- only after its job is complete.
use mathlib.Core.Path.{subst}
use cluster_agent.Prelude.{
  String, ◌≡◌, ◌≢◌, refl, sym, Bool, true, false, not, Option, some, none, List, [], ◌∷◌, Result,
  ok, err, arith, if◌then◌else◌, Bool-cases, inl, inr, Option-cases, lookup, is_some,
}
use cluster_agent.Api.Meta.{ConditionOps, cond_true, cond_false}
use cluster_agent.Api.StackResource.{BuildArg, LastFailureDetail, GitRepoSource}
use cluster_agent.Api.Volume.{Volume}
use cluster_agent.Api.ImageBuild.{
  ImageBuild, build_available, build_failed, phase_failed, phase_success,
}
use cluster_agent.Controller.SubReconciler.{CtrlResult}
use cluster_agent.Registry.Reference.{Resolution, resolved, registry_not_ready, resolve_error}
use cluster_agent.ImageBuild.Calls.{
  BuildCalls, BuildJob, BuildParams, BuildSource, volume_source, git_source, Secret,
  ResolvedBuildArg,
}
use cluster_agent.ImageBuild.Status.{
  build_condition_true, image_build_in_terminal_state, set_status, set_phase,
  report_image_build_status, validate_git_revision,
}
use cluster_agent.ImageBuild.Inputs.{
  Args, add_arg, after_arg_key, after_arg_secret, build_arg_value, resolve_build_args,
  get_registry_auth_secrets, is_volume_available, volume_ready_for_build,
}
use cluster_agent.ImageBuild.Job.{
  Ended, job_condition_true, after_create, complete_build, fail_build, wait_for_build, judge_job,
  reconcile_build_job, after_get_job, keep_failure, note_failure, get_build_failure_detail,
}
use cluster_agent.ImageBuild.Sources.{
  build_from, after_owner, after_generate, after_destination, after_args, after_auth, after_volume,
  params_of, resolve_destination, reconcile_with_volume_source, reconcile_with_git_source,
}
use cluster_agent.ImageBuild.Reconcile.{
  reconcile, reconcile_source, reconcile_cancellation, from_source, after_jobs,
}
use cluster_agent.ImageBuild.Reconcile.Terminal.{
  IsAgreed, IsOpen, IsAgreed-of_IsOpen, IsOpen-of_IsAgreed, waiting-IsOpen, created-IsOpen,
  completed-IsAgreed, failed-IsAgreed, cancelled-IsAgreed,
}

-- The API returned a job that is complete.
abbrev pub HasCompleteJob : BuildCalls → Type 0
HasCompleteJob calls =
    (name : String) × (namespace : String) × (job : BuildJob) × (calls.get_job name namespace
      ≡ ok (some job))
    × (job_condition_true job "Complete" ≡ true)

module _ ⦃ops : ConditionOps⦄ (calls : BuildCalls) where
  pub record IsSound (b : ImageBuild) : Type 0 where
    pub agreed : IsAgreed b
    pub success_means : build_condition_true b build_available ≡ true → HasCompleteJob calls

  -- A part of a pass settles a build: where it ends without an error, the build is sound.
  abbrev pub Settles : Ended → Type 0
  Settles e = (res : CtrlResult) → e.result ≡ ok res → IsSound e.build

  open-IsSound : (b : ImageBuild) → IsOpen b → IsSound b
  open-IsSound b i = record {
    agreed = IsAgreed-of_IsOpen b i;
    success_means = λ h. ground (arith, h, i.not_available);
  }

  unsuccessful-IsSound : (b : ImageBuild) → IsAgreed b → b.status.phase ≢ phase_success → IsSound b
  unsuccessful-IsSound b i n = record {
    agreed = i;
    success_means = λ h. ground (arith, h, n, i.success);
  }

  failed-IsSound :
      (b : ImageBuild) (reason : String)
      → IsOpen b
      → IsSound (
          set_phase
            (report_image_build_status calls.print_hash b build_failed cond_true reason)
            phase_failed)
  failed-IsSound b reason i =
      unsuccessful-IsSound _ (failed-IsAgreed calls.print_hash b reason i) (λ h. ground (arith, h))

  with_detail-IsOpen :
      (b : ImageBuild) (d : Option LastFailureDetail)
      → IsOpen b
      → IsOpen (set_status b (record b.status { last_build_failure_detail = d }))
  unfolding build_condition_true
  with_detail-IsOpen b d i = record {
    not_available = i.not_available;
    not_failed = i.not_failed;
    not_cancelled = i.not_cancelled;
    no_success = i.no_success;
    no_failure = i.no_failure;
    no_cancel = i.no_cancel;
  }

  with_image-IsOpen :
      (b : ImageBuild) (url : String)
      → IsOpen b
      → IsOpen (set_status b (record b.status { image_url = url }))
  unfolding build_condition_true
  with_image-IsOpen b url i = record {
    not_available = i.not_available;
    not_failed = i.not_failed;
    not_cancelled = i.not_cancelled;
    no_success = i.no_success;
    no_failure = i.no_failure;
    no_cancel = i.no_cancel;
  }

  keep_failure-IsOpen :
      (b : ImageBuild) (d : Result (Option LastFailureDetail))
      → IsOpen b
      → IsOpen (keep_failure b d)
  keep_failure-IsOpen b (err e) i = i
  keep_failure-IsOpen b (ok none) i = i
  keep_failure-IsOpen b (ok (some detail)) i = with_detail-IsOpen b _ i

  note_failure-IsOpen :
      (b : ImageBuild) (d : Result (Option LastFailureDetail))
      → IsOpen b
      → IsOpen (note_failure b d)
  note_failure-IsOpen b (err e) i = i
  note_failure-IsOpen b (ok d) i = with_detail-IsOpen b d i

  noted-IsOpen :
      (b : ImageBuild) (h : Bool) (d : Result (Option LastFailureDetail))
      → IsOpen b
      → IsOpen (if h then b else note_failure b d)
  noted-IsOpen b true d i = i
  noted-IsOpen b false d i = note_failure-IsOpen b d i

  -- Either side of a test settles the build.
  if-Settles : (t : Bool) (x y : Ended) → Settles x → Settles y → Settles (if t then x else y)
  if-Settles true x y h k = h
  if-Settles false x y h k = k

  not_ready-IsSound :
      (b : ImageBuild) (reason : String)
      → IsOpen b
      → IsSound (report_image_build_status calls.print_hash b build_available cond_false reason)
  not_ready-IsSound b reason i = open-IsSound _ (waiting-IsOpen calls.print_hash b reason i)

  after_create-Settles :
      (b : ImageBuild) (job : BuildJob) (e : Option String)
      → IsOpen b
      → Settles (after_create calls b job e)
  unfolding after_create
  after_create-Settles b job (some e) i res q = ground (arith, q)
  after_create-Settles b job none i res q = open-IsSound _ (created-IsOpen b i)

  complete_build-Settles :
      (b : ImageBuild) (params : BuildParams)
      → IsOpen b
      → HasCompleteJob calls
      → Settles (complete_build calls b params)
  unfolding complete_build
  complete_build-Settles b params i found res q = record {
    agreed = completed-IsAgreed calls.print_hash _ (with_image-IsOpen b params.destination i);
    success_means = λ h. found;
  }

  fail_build-Settles :
      (b : ImageBuild) (job : BuildJob) → IsOpen b → Settles (fail_build calls b job)
  unfolding fail_build
  fail_build-Settles b job i res q =
      failed-IsSound _ "BuildJobFailed"
        (keep_failure-IsOpen b (get_build_failure_detail calls job) i)

  wait_for_build-Settles :
      (b : ImageBuild) (job : BuildJob) → IsOpen b → Settles (wait_for_build calls b job)
  unfolding wait_for_build
  wait_for_build-Settles b job i res q = open-IsSound _ (
      waiting-IsOpen calls.print_hash _ "BuildJobNotYetComplete" (
        noted-IsOpen b (is_some b.status.last_build_failure_detail)
          (get_build_failure_detail calls job) i))

  judge_job-Settles :
      (b : ImageBuild) (params : BuildParams) (job : BuildJob) (name namespace : String)
      → IsOpen b
      → calls.get_job name namespace ≡ ok (some job)
      → Settles (judge_job calls b params job)
  unfolding judge_job
  judge_job-Settles b params job name namespace i found =
      elim (Bool-cases (job_condition_true job "Complete")) [
        | inl e ↦ rw e (complete_build-Settles b params i (name, namespace, job, found, e))
        | inr e ↦ rw e (
            if-Settles (job_condition_true job "Failed") _ _ (fail_build-Settles b job i)
              (wait_for_build-Settles b job i))
      ]

  after_get_job-Settles :
      (b : ImageBuild) (desired : BuildJob) (params : BuildParams) (name namespace : String)
      (answer : Result (Option BuildJob))
      → IsOpen b
      → calls.get_job name namespace ≡ answer
      → Settles (after_get_job calls b desired params answer)
  after_get_job-Settles b desired params name namespace (err e) i found res q = ground (arith, q)
  after_get_job-Settles b desired params name namespace (ok none) i found res q =
      after_create-Settles b desired (calls.create_job desired) i res q
  after_get_job-Settles b desired params name namespace (ok (some job)) i found res q =
      judge_job-Settles b params job name namespace i found res q

  reconcile_build_job-Settles :
      (b : ImageBuild) (desired : BuildJob) (params : BuildParams)
      → IsOpen b
      → Settles (reconcile_build_job calls b desired params)
  unfolding reconcile_build_job
  reconcile_build_job-Settles b desired params i =
      after_get_job-Settles b desired params desired.name desired.namespace
        (calls.get_job desired.name desired.namespace) i refl

  after_owner-Settles :
      (b : ImageBuild) (params : BuildParams) (job : Result BuildJob)
      → IsOpen b
      → Settles (after_owner calls b params job)
  after_owner-Settles b params (err e) i res q = ground (arith, q)
  after_owner-Settles b params (ok job) i res q = reconcile_build_job-Settles b job params i res q

  after_generate-Settles :
      (b : ImageBuild) (params : BuildParams) (job : Result BuildJob)
      → IsOpen b
      → Settles (after_generate calls b params job)
  after_generate-Settles b params (err e) i res q = ground (arith, q)
  after_generate-Settles b params (ok job) i res q = after_owner-Settles b params _ i res q

  after_destination-Settles :
      (b : ImageBuild) (source : BuildSource) (auth : Option Secret × String)
      (args : List ResolvedBuildArg) (r : Resolution)
      → IsOpen b
      → Settles (after_destination calls b source auth args r)
  after_destination-Settles b source auth args registry_not_ready i res q =
      open-IsSound _ (waiting-IsOpen calls.print_hash b "RegistryNotReady" i)
  after_destination-Settles b source auth args (resolve_error e) i res q = ground (arith, q)
  after_destination-Settles b source auth args (resolved target) i res q =
      after_generate-Settles b (params_of calls b source auth args target) _ i res q

  -- The loop over the build arguments changes the build only where it ends in an error.
  add_arg-kept :
      (b : ImageBuild) (arg : BuildArg) (x : Result String × ImageBuild) (rest : Args)
      → ((v : String) → x.0 ≡ ok v → x.1 ≡ b)
      → ((args : List ResolvedBuildArg) → rest.0 ≡ ok args → rest.1 ≡ b)
      → (args : List ResolvedBuildArg) → (add_arg arg x rest).0 ≡ ok args
      → (add_arg arg x rest).1 ≡ b
  add_arg-kept b arg (err e, c) rest f g args q = ground (arith, q)
  add_arg-kept b arg (ok v, c) (err e, d) f g args q = ground (arith, q)
  add_arg-kept b arg (ok v, c) (ok rest, d) f g args q = g rest refl

  after_arg_key-kept :
      (b : ImageBuild) (arg : String) (found : Option String) (v : String)
      → (after_arg_key calls b arg found).0 ≡ ok v
      → (after_arg_key calls b arg found).1 ≡ b
  after_arg_key-kept b arg none v q = ground (arith, q)
  after_arg_key-kept b arg (some value) v q = refl

  after_arg_secret-kept :
      (b : ImageBuild) (arg key : String) (found : Result (Option Secret)) (v : String)
      → (after_arg_secret calls b arg key found).0 ≡ ok v
      → (after_arg_secret calls b arg key found).1 ≡ b
  after_arg_secret-kept b arg key (err e) v q = refl
  after_arg_secret-kept b arg key (ok none) v q = ground (arith, q)
  after_arg_secret-kept b arg key (ok (some secret)) v q =
      after_arg_key-kept b arg (lookup secret.contents key) v q

  build_arg_value-kept :
      (b : ImageBuild) (arg : BuildArg) (v : String)
      → (build_arg_value calls b arg).0 ≡ ok v
      → (build_arg_value calls b arg).1 ≡ b
  unfolding build_arg_value
  build_arg_value-kept b arg v q = elim (Option-cases arg.value_from) [
    | inl e ↦ ground (arith, e)
    | inr (ref, e) ↦ ground (
      arith,
      e,
      q,
      after_arg_secret-kept b arg.name ref.key (calls.get_secret ref.name b.metadata.namespace) v,
    )
  ]

  resolve_build_args-kept :
      (b : ImageBuild) (todo : List BuildArg) (args : List ResolvedBuildArg)
      → (resolve_build_args calls b todo).0 ≡ ok args
      → (resolve_build_args calls b todo).1 ≡ b
  unfolding resolve_build_args
  resolve_build_args-kept b [] args q = refl
  resolve_build_args-kept b (arg ∷ todo) args q =
      add_arg-kept b arg (build_arg_value calls b arg) (resolve_build_args calls b todo)
        (build_arg_value-kept b arg) (resolve_build_args-kept b todo) args q

  after_args-Settles :
      (b : ImageBuild) (source : BuildSource) (auth : Option Secret × String) (x : Args)
      → IsOpen b
      → ((args : List ResolvedBuildArg) → x.0 ≡ ok args → x.1 ≡ b)
      → Settles (after_args calls source auth x)
  after_args-Settles b source auth (err e, c) i kept res q = ground (arith, q)
  after_args-Settles b source auth (ok args, c) i kept res q =
      after_destination-Settles c source auth args (resolve_destination calls c)
        (subst IsOpen (sym (kept args refl)) i) res q

  after_auth-Settles :
      (b : ImageBuild) (source : BuildSource) (auth : Result (Option Secret × String))
      → IsOpen b
      → Settles (after_auth calls b source auth)
  after_auth-Settles b source (err e) i res q = ground (arith, q)
  after_auth-Settles b source (ok auth) i res q =
      after_args-Settles b source auth (resolve_build_args calls b b.spec.build_args) i
        (resolve_build_args-kept b b.spec.build_args) res q

  build_from-Settles :
      (b : ImageBuild) (source : BuildSource) → IsOpen b → Settles (build_from calls b source)
  unfolding build_from
  build_from-Settles b source i = after_auth-Settles b source (get_registry_auth_secrets calls b) i

  after_volume-Settles :
      (b : ImageBuild) (volume : Result Volume) → IsOpen b → Settles (after_volume calls b volume)
  after_volume-Settles b (err e) i res q = ground (arith, q)
  after_volume-Settles b (ok volume) i res q =
      if-Settles (not (is_volume_available volume)) _ _
        (λ res' q'. not_ready-IsSound b "VolumeNotReady" i)
        (if-Settles (not (volume_ready_for_build volume b)) _ _
          (λ res' q'. not_ready-IsSound b "VolumeNotReadyForBuild" i)
          (build_from-Settles b
            (volume_source volume.pvc_name volume.git_repo_synced_path_within_volume) i))
        res q

  reconcile_with_volume_source-Settles :
      (b : ImageBuild) (volume : String)
      → IsOpen b
      → Settles (reconcile_with_volume_source calls b volume)
  unfolding reconcile_with_volume_source
  reconcile_with_volume_source-Settles b volume i =
      after_volume-Settles b (calls.get_volume volume b.metadata.namespace) i

  reconcile_with_git_source-Settles :
      (b : ImageBuild) (repo : GitRepoSource)
      → IsOpen b
      → Settles (reconcile_with_git_source calls b repo)
  unfolding reconcile_with_git_source
  reconcile_with_git_source-Settles b repo i =
      if-Settles (validate_git_revision calls.lower b.spec.source_revision.git_repo) _ _
        (build_from-Settles b (git_source repo b.spec.source_revision.git_repo) i)
        (λ res q. failed-IsSound b "SourceRevisionInvalid" i)

  pub from_source-Settles :
      (b : ImageBuild) (git : Option GitRepoSource) (volume : Option String)
      → IsOpen b
      → Settles (from_source calls b git volume)
  from_source-Settles b (some repo) volume i res q =
      reconcile_with_git_source-Settles b repo i res q
  from_source-Settles b none (some volume) i res q =
      reconcile_with_volume_source-Settles b volume i res q
  from_source-Settles b none none i res q = ground (arith, q)

  pub after_jobs-Settles :
      (b : ImageBuild) (jobs : Result (List BuildJob))
      → IsOpen b
      → Settles (after_jobs calls b jobs)
  unfolding report_image_build_status
  after_jobs-Settles b (err e) i res q = ground (arith, q)
  after_jobs-Settles b (ok jobs) i res q =
      unsuccessful-IsSound _ (cancelled-IsAgreed calls.print_hash b "BuildCancelled" i)
        (λ h. ground (arith, h))

  -- A pass over an open build settles it.
  pub reconcile-Settles :
      (b : ImageBuild)
      → IsAgreed b
      → image_build_in_terminal_state b ≡ false
      → Settles (reconcile calls b)
  unfolding reconcile reconcile_source reconcile_cancellation
  reconcile-Settles b i h =
      let o = IsOpen-of_IsAgreed b i h in
      let source = b.spec.build_context.context_source in
      rw h (
        if-Settles b.spec.cancelled _ _
          (after_jobs-Settles b (calls.list_jobs b.metadata.namespace) o)
          (from_source-Settles b source.git source.volume o))
