-- ===== src/Workload/Gates/Outcome.antt =====
-- A workload is reconciled only behind open gates.
use cluster_agent.Prelude.{
  String, ◌≡◌, ◌≢◌, refl, ◌∙◌, Bool, true, false, none, Result, ok, err, is_some, ◌⊎◌, inl, inr,
  arith, Option-cases, some,
}
use cluster_agent.Api.Meta.{ConditionOps, Condition, cond_true}
use cluster_agent.Api.StackResource.{
  StackResource, DomainCondition, dependencies_ready, build_ready,
}
use cluster_agent.Controller.Verdict.{report_not_ready}
use cluster_agent.Controller.SubReconciler.{SubReconcilerResult}
use cluster_agent.StackResource.Conditions.{domain_condition_true, set_resource_condition}
use cluster_agent.StackResource.Reconcile.{ImageBuildView}
use cluster_agent.Workload.Readiness.{Pass}
use cluster_agent.Workload.Deployment.Ports.{true-set_resource}
use cluster_agent.Workload.Gates.{
  GateCalls, Dispatch, dispatch, close_gate, open_gate, after_complete, after_get_build, build_gate,
  after_volumes, after_dependencies, reconcile_workload, image_build_complete, Outcome,
}

abbrev is_err {ℓ} : {A : Type ℓ} → Result A → Bool
is_err (err e) = true
is_err (ok a) = false

-- The pass failed, or it reports that it is not ready.
abbrev pub IsBlocked : Result SubReconcilerResult × Pass → Type 0
IsBlocked x = (is_err x.0 ≡ true) ⊎ (is_some x.1.verdicts.not_ready ≡ true)

module _ ⦃ops : ConditionOps⦄ where
  -- The resource once its dependencies and volume mounts are ready.
  abbrev pub readied : StackResource → StackResource
  readied r =
      set_resource_condition r dependencies_ready true "DependenciesReady"
        "dependencies and volume mounts ready"

  -- The image build of a resource, as the API returned it, is available.
  pub record IsBuilt (g : GateCalls) (r : StackResource) : Type 0 where
    pub build : ImageBuildView
    pub condition : Condition
    pub found : g.get_image_build r ≡ ok build
    pub has_condition : ops.find_condition build.conditions "Available" ≡ some condition
    pub is_true : condition.status ≡ cond_true

  -- What the checks answered of the resource that the pass started from, and what the conditions
  -- say at the current generation.
  pub record IsOpen (g : GateCalls) (r : StackResource) (q : Pass) : Type 0 where
    pub dependencies_answer : (m : String) × (g.dependencies_available r ≡ ok (true, m))
    pub volumes_answer : (m : String) × (g.volume_mounts_ready r ≡ (true, m))
    pub dependencies : domain_condition_true q.resource dependencies_ready ≡ true
    pub build :
        (q.resource.spec.build_spec ≡ none)
        ⊎ (IsBuilt g (readied r) × (domain_condition_true q.resource build_ready ≡ true))

  -- A check that did not let the pass through.
  pub data Refused (g : GateCalls) (r : StackResource) : Type 0 where
    no_dependencies : ((m : String) → g.dependencies_available r ≢ ok (true, m)) → Refused g r
    no_volumes : ((m : String) → g.volume_mounts_ready r ≢ (true, m)) → Refused g r
    no_build : r.spec.build_spec ≢ none → (IsBuilt g (readied r) → ⊥) → Refused g r

  -- What a pass does with the reconcilers that it may dispatch to.
  pub data Gated (g : GateCalls) (r : StackResource) (f : Dispatch → Outcome) : Type 0 where
    blocked : (x : Outcome) → ((d : Dispatch) → f d ≡ x) → IsBlocked x → Refused g r → Gated g r f
    dispatched : (q : Pass) → ((d : Dispatch) → f d ≡ dispatch d q) → IsOpen g r q → Gated g r f

  Gated-same :
      {g : GateCalls} {r : StackResource} {f f' : Dispatch → Outcome}
      → ((d : Dispatch) → f' d ≡ f d)
      → Gated g r f
      → Gated g r f'
  Gated-same e (blocked x h b w) = blocked x (λ d. e d ∙ h d) b w
  Gated-same e (dispatched q h o) = dispatched q (λ d. e d ∙ h d) o

  not_ready-close_gate :
      (p : Pass) (t : DomainCondition) (a b : String × String)
      → is_some (close_gate p t a b).verdicts.not_ready ≡ true
  unfolding close_gate report_not_ready
  not_ready-close_gate p t a b = ground arith

  true-open_gate :
      (p : Pass) (t u : DomainCondition) (a : String × String)
      → domain_condition_true (open_gate p t a).resource u
        ≡ domain_condition_true (set_resource_condition p.resource t true a.0 a.1) u
  unfolding open_gate
  true-open_gate p t u a = refl

  complete_means :
      (b : ImageBuildView)
      → image_build_complete b ≡ true
      → (c : Condition) × (ops.find_condition b.conditions "Available" ≡ some c)
        × (c.status ≡ cond_true)
  unfolding image_build_complete
  complete_means b h = elim (Option-cases (ops.find_condition b.conditions "Available")) [
    | inl e ↦ ground (arith, e, h)
    | inr (c, e) ↦ (c, e, ground (arith, e, h))
  ]

  module _ (g : GateCalls) (p : Pass) where
    -- The pass once its dependencies and volume mounts are ready.
    abbrev through : Pass
    through =
        open_gate p dependencies_ready ("DependenciesReady", "dependencies and volume mounts ready")

    -- What the two checks have answered when the pass is through.
    abbrev Answered : Type 0
    Answered =
        ((m : String) × (g.dependencies_available p.resource ≡ ok (true, m)))
        × ((m : String) × (g.volume_mounts_ready p.resource ≡ (true, m)))

    through_true : domain_condition_true through.resource dependencies_ready ≡ true
    through_true = simp (true-open_gate, true-set_resource)

    built_is_complete :
        (b : ImageBuildView)
        → g.get_image_build through.resource ≡ ok b
        → IsBuilt g (readied p.resource)
        → image_build_complete b ≡ true
    unfolding open_gate image_build_complete
    built_is_complete b h i = ground (arith, h, i.found, i.has_condition, i.is_true)

    complete-Gated :
        Answered
        → p.resource.spec.build_spec ≢ none
        → (b : ImageBuildView) → g.get_image_build through.resource ≡ ok b
        → (c : Bool) → image_build_complete b ≡ c
        → Gated g p.resource (λ d. after_complete d through c)
    unfolding after_complete open_gate
    complete-Gated a s b found true h =
        let (c, has, is) = complete_means b h in
        dispatched _ (λ d. refl)
          (record {
            dependencies_answer = a.0;
            volumes_answer = a.1;
            dependencies = simp (true-open_gate, true-set_resource);
            build = inr (
              record { build = b; condition = c; found = found; has_condition = has; is_true = is },
              simp (true-open_gate, true-set_resource),
            );
          })
    complete-Gated a s b found false h =
        blocked _ (λ d. refl)
          (inr (
            not_ready-close_gate through build_ready
              ("BuildNotReady", "application build is not yet ready")
              ("ApplicationBuildNotYetReady", "Application build is not yet ready")))
          (no_build s (λ i. ground (arith, h, built_is_complete b found i)))

    get_build-Gated :
        Answered
        → p.resource.spec.build_spec ≢ none
        → (answer : Result ImageBuildView) → g.get_image_build through.resource ≡ answer
        → Gated g p.resource (λ d. after_get_build d through answer)
    unfolding after_get_build open_gate
    get_build-Gated a s (err e) h =
        blocked (err e, through) (λ d. refl) (inl refl)
          (no_build s (λ i. ground (arith, h, i.found)))
    get_build-Gated a s (ok b) h = complete-Gated a s b h (image_build_complete b) refl

    build_gate-Gated : Answered → Gated g p.resource (λ d. build_gate g d through)
    unfolding build_gate open_gate set_resource_condition
    build_gate-Gated a = elim (Option-cases through.resource.spec.build_spec) [
      | inl e ↦
          dispatched through (λ d. ground (arith, e))
            (record {
              dependencies_answer = a.0;
              volumes_answer = a.1;
              dependencies = through_true;
              build = inl e;
            })
      | inr (b, e) ↦
          Gated-same (λ d. ground (arith, e))
            (get_build-Gated a (λ q. ground (arith, e, q)) (g.get_image_build through.resource)
              refl)
    ]

    volumes-Gated :
        ((m : String) × (g.dependencies_available p.resource ≡ ok (true, m)))
        → (v : Bool × String) → g.volume_mounts_ready p.resource ≡ v
        → Gated g p.resource (λ d. after_volumes g d p v)
    unfolding after_volumes
    volumes-Gated a (false, msg) h =
        blocked _ (λ d. refl)
          (inr (
            not_ready-close_gate p dependencies_ready ("VolumeMountsNotReady", msg)
              ("VolumeMountsNotReady", msg)))
          (no_volumes (λ m q. ground (arith, h, q)))
    volumes-Gated a (true, msg) h = build_gate-Gated (a, (msg, h))

    dependencies-Gated :
        (answer : Result (Bool × String))
        → g.dependencies_available p.resource ≡ answer
        → Gated g p.resource (λ d. after_dependencies g d p answer)
    unfolding after_dependencies
    dependencies-Gated (err e) h =
        blocked (err e, p) (λ d. refl) (inl refl) (no_dependencies (λ m q. ground (arith, h, q)))
    dependencies-Gated (ok (false, msg)) h =
        blocked _ (λ d. refl)
          (inr (
            not_ready-close_gate p dependencies_ready ("DependenciesNotReady", msg)
              ("DependenciesNotReady", msg)))
          (no_dependencies (λ m q. ground (arith, h, q)))
    dependencies-Gated (ok (true, msg)) h =
        volumes-Gated (msg, h) (g.volume_mounts_ready p.resource) refl

    -- Whatever the checks answer, one of two things happens. A pass ends before any workload is
    -- reconciled, with an error or a not-ready verdict, only where a check refused it: the
    -- dependencies are not available, the volume mounts are not ready, or the resource is built from
    -- source and the API returned no image build whose Available condition is True. Or the checks
    -- answered that the dependencies are available and the volume mounts ready and, for a resource
    -- that is built from source, the API returned such a build, and the pass is dispatched from a
    -- state in which DependenciesReady is True at the current generation and, for a resource that is
    -- built from source, so is BuildReady.
    pub reconcile_workload-Gated : Gated g p.resource (λ d. reconcile_workload g d p)
    unfolding reconcile_workload
    reconcile_workload-Gated = dependencies-Gated (g.dependencies_available p.resource) refl
