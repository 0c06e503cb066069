-- ===== src/StackResource/Reconcile.antt =====
-- internal/controller/stackresource/stackresource_controller.go: a whole reconcile pass.
-- The calls of the Kubernetes API are arguments. `world` is what the sub-reconcilers change
-- beside the object that is reconciled.
pub mod Writes
use cluster_agent.Prelude.{
  String, Bool, true, false, Option, some, none, List, Result, ok, err, if◌then◌else◌,
}
use cluster_agent.Api.Meta.{Condition, ConditionOps, is_cond_true}
use cluster_agent.Api.StackResource.{StackResource, Status, BuildStatus}
use cluster_agent.Controller.Verdict.{VerdictCollector, fresh_collector}
use cluster_agent.Controller.SubReconciler.{Sub, CtrlResult, done, run_chain}
use cluster_agent.StackResource.StatusDerive.{derive_summary_status}

-- What the pass reads of an ImageBuild.
pub record ImageBuildView : Type 0 where
  pub name : String
  pub build_source_revision : String
  pub phase : String
  pub conditions : List Condition

-- Client.Get, where a missing object is none; equality.Semantic.DeepEqual; the error of
-- Status().Update, if any; and the printing of a status for its hash.
pub record ApiCalls : Type 0 where
  pub get_resource : Result (Option StackResource)
  pub get_build : StackResource → Result (Option ImageBuildView)
  pub same_status : Status → Status → Bool
  pub update_status : StackResource → Option String
  pub print_hash : Status → String

module _ {ℓ} (W : Type ℓ) where
  pub record PassState : Type ℓ where
    pub resource : StackResource
    pub verdicts : VerdictCollector
    pub world : W

  -- How a pass ends: what it returns, and the object that it asked to be written, if any.
  pub record Ended : Type ℓ where
    pub result : Result CtrlResult
    pub written : Option StackResource
    pub world : W

abbrev pub set_current_build : StackResource → Option BuildStatus → StackResource
set_current_build r b = record r { status = record r.status { current_build = b } }

abbrev after_update : CtrlResult → Option String → Result CtrlResult
after_update res none = ok res
after_update res (some e) = err e

module _ ⦃ops : ConditionOps⦄ where
  abbrev build_status_of : ImageBuildView → Option Condition → BuildStatus
  build_status_of b none = record {
    name = b.name;
    source_revision = b.build_source_revision;
    available = false;
    reason = "";
    message = "";
    phase = b.phase;
  }
  build_status_of b (some c) = record {
    name = b.name;
    source_revision = b.build_source_revision;
    available = is_cond_true c.status;
    reason = c.reason;
    message = c.message;
    phase = b.phase;
  }

  abbrev read_build : Result (Option ImageBuildView) → Result (Option BuildStatus)
  read_build (err e) = err e
  read_build (ok none) = ok none
  read_build (ok (some b)) =
      ok (some (build_status_of b (ops.find_condition b.conditions "Available")))

  -- getImageBuildStatus
  unfoldable pub get_image_build_status : ApiCalls → StackResource → Result (Option BuildStatus)
  get_image_build_status calls resource = elim resource.spec.build_spec [
    | none ↦ ok none
    | some spec ↦ read_build (calls.get_build resource)
  ]

  module _ {ℓ} {W : Type ℓ} where
    -- The end of Reconcile: the derived object is written unless its status is the one read.
    unfoldable pub write_unless : Bool → ApiCalls → CtrlResult → W → StackResource → Ended W
    write_unless true calls res world derived = record {
      result = ok res;
      written = none;
      world = world;
    }
    write_unless false calls res world derived = record {
      result = after_update res (calls.update_status derived);
      written = some derived;
      world = world;
    }

    -- Reconcile after the build status is read.
    unfoldable pub write_derived :
        ApiCalls → Status → CtrlResult → PassState W → Option BuildStatus → Ended W
    unfolding write_unless
    write_derived calls original res s b =
        let derived =
          derive_summary_status calls.print_hash (set_current_build s.resource b) s.verdicts in
        write_unless (calls.same_status original derived.status) calls res s.world derived

    -- Reconcile after the build status is asked for.
    unfoldable pub after_build :
        ApiCalls → Status → CtrlResult → PassState W → Result (Option BuildStatus) → Ended W
    unfolding write_derived
    after_build calls original res s (err e) = record {
      result = err e;
      written = none;
      world = s.world;
    }
    after_build calls original res s (ok b) = write_derived calls original res s b

    -- Reconcile after the chain.
    unfoldable pub after_chain : ApiCalls → Status → Result CtrlResult × PassState W → Ended W
    unfolding after_build get_image_build_status
    after_chain calls original (err e, s) = record {
      result = err e;
      written = none;
      world = s.world;
    }
    after_chain calls original (ok res, s) =
        after_build calls original res s (get_image_build_status calls s.resource)

    unfoldable pub reconcile_found :
        ApiCalls → List (Sub (PassState W)) → W → StackResource → Ended W
    unfolding after_chain run_chain fresh_collector
    reconcile_found calls subs world resource = after_chain calls resource.status (
        run_chain subs none
          (record { resource = resource; verdicts = fresh_collector; world = world }))

    -- Reconcile
    unfoldable pub reconcile : ApiCalls → List (Sub (PassState W)) → W → Ended W
    unfolding reconcile_found
    reconcile calls subs world = elim calls.get_resource [
      | err e ↦ record { result = err e; written = none; world = world }
      | ok o ↦ elim o [
        | none ↦ record { result = ok done; written = none; world = world }
        | some resource ↦ reconcile_found calls subs world resource
      ]
    ]
