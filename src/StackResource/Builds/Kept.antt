-- ===== src/StackResource/Builds/Kept.antt =====
-- The pass over the ImageBuilds of a StackResource spares the current build, and continues only when
-- that build has succeeded.
use cluster_agent.Prelude.{
  String, ◌≡◌, ◌≢◌, refl, Bool, true, false, Option, some, none, List, [], ◌∷◌, ◌++◌, map, keep,
  drop, sort_by, Result, ok, err, All, All-keep, All-append, arith, eq_iff, is_some, ◌⊎◌, inl, inr,
  ltb, length, ◌&&◌, if◌then◌else◌, ℕ,
}
use cluster_agent.Api.Meta.{ConditionOps}
use cluster_agent.Api.StackResource.{StackResource, BuildSpec}
use cluster_agent.Api.ImageBuild.{ImageBuild, phase_success}
use cluster_agent.Api.ImageBuild.Names.{image_build_name}
use cluster_agent.Controller.Verdict.{VerdictCollector, report_not_ready, report_failed}
use cluster_agent.Controller.SubReconciler.{SubReconcilerResult, result_continue, result_stop}
use cluster_agent.ImageBuild.Reconcile.{first_error}
use cluster_agent.StackResource.Builds.{
  BuildsCalls, BuildWrite, cancels, deletes, creates, BuildsEnded, is_image_build_terminal,
  is_owned_by_stack_resource, is_stale, is_expired, cancelled_copy, newest_build_first,
  stale_builds, expired_builds, create_image_build, judge_build, after_create_build,
  after_set_owner, after_delete_cancelled, after_get_current, after_retention, after_cancel,
  after_list_builds, reconcile_image_builds, builds_error, image_build_failed,
  is_image_build_complete,
}

module _ (calls : BuildsCalls) (resource : StackResource) (current : String) where
  -- A write that does not touch the current build: a cancellation or a deletion of another build that
  -- this resource owns, the deletion only of a terminal one; or the deletion of the current build
  -- where it is cancelled.
  abbrev pub IsSparing : BuildWrite → Type 0
  IsSparing (cancels b) =
      (b.metadata.name ≢ current) × (is_owned_by_stack_resource b resource ≡ true)
  IsSparing (deletes b) =
      ((b.metadata.name ≢ current)
        × (is_owned_by_stack_resource b resource ≡ true)
        × (is_image_build_terminal b ≡ true))
      ⊎ ((b.spec.cancelled ≡ true)
          × (calls.get_build current resource.metadata.namespace ≡ ok (some b)))
  IsSparing (creates b) = Unit

  -- The current build is there, is not cancelled and has succeeded.
  pub record HasSucceeded : Type 0 where
    pub build : ImageBuild
    pub found : calls.get_build current resource.metadata.namespace ≡ ok (some build)
    pub wanted : build.spec.cancelled ≡ false
    pub succeeded : build.status.phase ≡ phase_success

  pub record IsCareful (e : BuildsEnded) : Type 0 where
    pub spares : All IsSparing e.writes
    pub means :
        (r : SubReconcilerResult)
        → e.result ≡ ok r
        → ((r ≡ result_continue) × HasSucceeded)
          ⊎ ((r ≡ result_stop)
              × ((is_some e.verdicts.not_ready ≡ true) ⊎ (is_some e.verdicts.failed ≡ true)))

  stale-IsSparing :
      (bs : List ImageBuild)
      → All (λ b. is_stale resource current b ≡ true) bs
      → All IsSparing (map cancels (map cancelled_copy bs))
  unfolding is_stale is_owned_by_stack_resource
  stale-IsSparing [] h = tt
  stale-IsSparing (b ∷ bs) (p, h) =
      (ground (arith, p, eq_iff b.metadata.name current), stale-IsSparing bs h)

  expired-IsSparing :
      (bs : List ImageBuild)
      → All (λ b. is_expired resource current b ≡ true) bs
      → All IsSparing (map deletes bs)
  unfolding is_expired
  expired-IsSparing [] h = tt
  expired-IsSparing (b ∷ bs) (p, h) =
      (inl (ground (arith, p, eq_iff b.metadata.name current)), expired-IsSparing bs h)

  expired_builds-is_expired :
      (limit : ℕ) (builds : List ImageBuild)
      → All
          (λ b. is_expired resource current b ≡ true)
          (expired_builds limit resource current builds)
  unfolding expired_builds
  expired_builds-is_expired limit builds =
      if-all (ltb 0 limit && ltb limit (length builds)) _
        (All-keep (is_expired resource current) (drop limit (sort_by newest_build_first builds)))
    where
      if-all :
          (t : Bool) (bs : List ImageBuild)
          → All (λ b. is_expired resource current b ≡ true) bs
          → All (λ b. is_expired resource current b ≡ true) (if t then bs else [])
      if-all true bs h = h
      if-all false bs h = tt

module _ ⦃ops : ConditionOps⦄ (calls : BuildsCalls) (resource : StackResource)
    (verdicts : VerdictCollector) (current : String) where
  abbrev Careful : BuildsEnded → Type 0
  Careful = IsCareful calls resource current

  abbrev Spared : List BuildWrite → Type 0
  Spared = All (IsSparing calls resource current)

  error-IsCareful :
      (ws : List BuildWrite) (e : String)
      → Spared ws
      → Careful (builds_error calls resource verdicts ws e)
  error-IsCareful ws e h = record { spares = h; means = λ r q. ground (arith, q) }

  if-IsCareful :
      (t : Bool) (x y : BuildsEnded)
      → (t ≡ true → Careful x)
      → (t ≡ false → Careful y)
      → Careful (if t then x else y)
  if-IsCareful true x y h k = h refl
  if-IsCareful false x y h k = k refl

  after_create_build-IsCareful :
      (ws : List BuildWrite) (b : ImageBuild) (e : Option String)
      → Spared ws
      → Careful (after_create_build calls resource verdicts ws b e)
  unfolding report_not_ready
  after_create_build-IsCareful ws b (some e) h =
      error-IsCareful _ _
        (All-append (IsSparing calls resource current) ws (creates b ∷ []) h (tt, tt))
  after_create_build-IsCareful ws b none h = record {
    spares = All-append (IsSparing calls resource current) ws (creates b ∷ []) h (tt, tt);
    means = λ r q. inr (ground (arith, q));
  }

  after_set_owner-IsCareful :
      (ws : List BuildWrite) (b : Result ImageBuild)
      → Spared ws
      → Careful (after_set_owner calls resource verdicts ws b)
  after_set_owner-IsCareful ws (err e) h = error-IsCareful ws _ h
  after_set_owner-IsCareful ws (ok b) h = after_create_build-IsCareful ws b (calls.create_build b) h

  create_image_build-IsCareful :
      (ws : List BuildWrite) (spec : BuildSpec)
      → Spared ws
      → Careful (create_image_build calls resource verdicts ws current spec)
  unfolding create_image_build
  create_image_build-IsCareful ws spec h = after_set_owner-IsCareful ws _ h

  judge_build-IsCareful :
      (ws : List BuildWrite) (b : ImageBuild)
      → Spared ws
      → calls.get_build current resource.metadata.namespace ≡ ok (some b)
      → b.spec.cancelled ≡ false
      → Careful (judge_build calls resource verdicts ws b)
  unfolding judge_build report_not_ready report_failed
  judge_build-IsCareful ws b h found wanted =
      if-IsCareful (image_build_failed b) _ _
        (λ e. record { spares = h; means = λ r q. inr (ground (arith, q)) })
        (λ e.
          if-IsCareful (is_image_build_complete b) _ _
            (λ f. record {
              spares = h;
              means = λ r q. inl (
                ground (arith, q),
                record { build = b; found = found; wanted = wanted; succeeded = ground (arith, f) },
              );
            })
            (λ f. record { spares = h; means = λ r q. inr (ground (arith, q)) }))

  after_delete_cancelled-IsCareful :
      (ws : List BuildWrite) (spec : BuildSpec) (e : Option String)
      → Spared ws
      → Careful (after_delete_cancelled calls resource verdicts ws current spec e)
  after_delete_cancelled-IsCareful ws spec (some e) h = error-IsCareful ws _ h
  after_delete_cancelled-IsCareful ws spec none h = create_image_build-IsCareful ws spec h

  after_get_current-IsCareful :
      (ws : List BuildWrite) (spec : BuildSpec) (answer : Result (Option ImageBuild))
      → Spared ws
      → calls.get_build current resource.metadata.namespace ≡ answer
      → Careful (after_get_current calls resource verdicts ws current spec answer)
  after_get_current-IsCareful ws spec (err e) h found = error-IsCareful ws _ h
  after_get_current-IsCareful ws spec (ok none) h found = create_image_build-IsCareful ws spec h
  after_get_current-IsCareful ws spec (ok (some b)) h found =
      if-IsCareful b.spec.cancelled _ _
        (λ e.
          after_delete_cancelled-IsCareful (ws ++ (deletes b ∷ [])) spec (calls.delete_build b) (
            All-append (IsSparing calls resource current) ws (deletes b ∷ []) h
              (inr (e, found), tt)))
        (λ e. judge_build-IsCareful ws b h found e)

  after_retention-IsCareful :
      (ws : List BuildWrite) (spec : BuildSpec) (e : Option String)
      → Spared ws
      → Careful (after_retention calls resource verdicts ws current spec e)
  after_retention-IsCareful ws spec (some e) h = error-IsCareful ws e h
  after_retention-IsCareful ws spec none h =
      after_get_current-IsCareful ws spec (calls.get_build current resource.metadata.namespace) h
        refl

  after_cancel-IsCareful :
      (ws : List BuildWrite) (spec : BuildSpec) (builds : List ImageBuild) (e : Option String)
      → Spared ws
      → Careful (after_cancel calls resource verdicts ws current spec builds e)
  after_cancel-IsCareful ws spec builds (some e) h = error-IsCareful ws e h
  after_cancel-IsCareful ws spec builds none h =
      let expired = expired_builds calls.history_limit resource current builds in
      after_retention-IsCareful (ws ++ map deletes expired) spec
        (first_error (map calls.delete_build expired))
        (All-append (IsSparing calls resource current) ws (map deletes expired) h (
          expired-IsSparing calls resource current expired
            (expired_builds-is_expired calls resource current calls.history_limit builds)))

  after_list_builds-IsCareful :
      (spec : BuildSpec) (answer : Result (List ImageBuild))
      → Careful (after_list_builds calls resource verdicts current spec answer)
  unfolding stale_builds
  after_list_builds-IsCareful spec (err e) = error-IsCareful [] _ tt
  after_list_builds-IsCareful spec (ok builds) =
      after_cancel-IsCareful (map cancels (stale_builds resource current builds)) spec builds _ (
        stale-IsSparing calls resource current (keep (is_stale resource current) builds)
          (All-keep (is_stale resource current) builds))

-- Whatever the API answers, a pass over the builds of a resource that is built from source cancels
-- a build only where it has another name than the current one and the resource owns it, and deletes
-- a build only where that holds and the build is over, or where it is the current build as the API
-- returned it and is itself cancelled, whoever owns it and whether it is over or not; the pass
-- continues only when the current build is there, is not cancelled and has succeeded; and where it stops without an error it has reported
-- that the resource is not ready or has failed.
pub reconcile_image_builds-IsCareful :
    ⦃ops : ConditionOps⦄ (calls : BuildsCalls) (resource : StackResource)
    (verdicts : VerdictCollector) (spec : BuildSpec)
    → resource.spec.build_spec ≡ some spec
    → IsCareful calls resource
        (image_build_name calls.lower calls.digests resource.metadata.name spec)
        (reconcile_image_builds calls resource verdicts)
unfolding reconcile_image_builds
reconcile_image_builds-IsCareful calls resource verdicts spec h = simp h (
    after_list_builds-IsCareful calls resource verdicts
      (image_build_name calls.lower calls.digests resource.metadata.name spec) spec
      (calls.list_builds resource))
