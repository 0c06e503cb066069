-- ===== src/StackResource/StatusDerive.antt =====
-- internal/controller/stackresource/status_derive.go: the only writer of the summary status.
pub mod Outcome
pub mod Unread
pub mod Agreement
pub mod Written
pub mod Again
use cluster_agent.Prelude.{
  String, Bool, true, false, some, none, [], ◌∷◌, concat, lookup, if◌then◌else◌,
}
use cluster_agent.Api.Meta.{ConditionOps}
use cluster_agent.Api.StackResource.{
  StackResource, Status, Phase, pending, ready, degraded, failed, stalled, converged,
  status_available, workload_available, workload_converged, get_source_revision_string, status_hash,
}
use cluster_agent.Controller.Verdict.{Verdict, VerdictCollector}
use cluster_agent.StackResource.Conditions.{
  set_summary_condition, domain_condition_true, domain_condition_text,
}
use cluster_agent.StackResource.Summary.{summarize}

abbrev pub revision_annotation : String
revision_annotation = "core.stackdome.io/revision"

unfoldable pub set_phase : StackResource → Phase → StackResource
set_phase r p = record r { status = record r.status { phase = p } }

-- The observed generation and, where the object carries one, the observed revision.
unfoldable pub observe : StackResource → StackResource
unfolding lookup
observe r =
    let s = record r.status { observed_generation = r.metadata.generation } in
    record r {
      status = elim (lookup r.metadata.annotations revision_annotation) [
        | some rev ↦ record s { observed_revision = rev }
        | none ↦ s
      ];
    }

-- The revision that is serving once nothing gated the pass.
unfoldable pub set_image_source_revision : StackResource → StackResource
unfolding get_source_revision_string
set_image_source_revision r = elim r.spec.build_spec [
  | none ↦ r
  | some b ↦ record r {
    status = record r.status {
      image_source_revision = get_source_revision_string b.source_revision;
    };
  }
]

-- The reason and message of Available in deriveNoVerdict.
abbrev pub availability_text : Bool → Bool → String × String
availability_text true true = ("StackResourceAvailable", "StackResource is available")
availability_text true false =
    ("StackResourceAvailable", "workload serving; current rollout not converged")
availability_text false _ = ("WorkloadNotAvailable", "workload is not available")

module _ ⦃ops : ConditionOps⦄ where
  -- deriveFailed
  unfoldable pub derive_failed : StackResource → Verdict → StackResource
  derive_failed resource v =
      let r1 = set_phase resource failed in
      let r2 = set_summary_condition r1 stalled true v.reason v.message in
      let r3 = set_summary_condition r2 converged false v.reason v.message in
      if domain_condition_true r3 workload_available
      then set_summary_condition r3 status_available true "ServingButStalled"
          (concat ("workload serving; terminal failure: " ∷ v.message ∷ []))
      else set_summary_condition r3 status_available false v.reason v.message

  -- deriveNotReady
  unfoldable pub derive_not_ready : StackResource → Verdict → StackResource
  derive_not_ready resource v =
      let r1 = set_phase resource pending in
      let r2 = set_summary_condition r1 status_available false v.reason v.message in
      let r3 = set_summary_condition r2 converged false v.reason v.message in
      set_summary_condition r3 stalled false v.reason v.message

  -- deriveNoVerdict
  unfoldable pub derive_no_verdict : StackResource → StackResource
  derive_no_verdict resource =
      let r1 = set_image_source_revision resource in
      let (is_converged, converged_reason, converged_msg) =
        domain_condition_text r1 workload_converged "WorkloadNotConverged"
          "workload has not converged" in
      let r2 = set_summary_condition r1 converged is_converged converged_reason converged_msg in
      let r3 = set_phase r2 (if is_converged then ready else degraded) in
      let available = domain_condition_true r3 workload_available in
      let (reason, msg) = availability_text available is_converged in
      let r4 = set_summary_condition r3 status_available available reason msg in
      set_summary_condition r4 stalled false reason msg

  -- The switch of deriveSummaryStatus.
  unfoldable pub derive_conditions : StackResource → VerdictCollector → StackResource
  derive_conditions resource verdicts = elim verdicts.failed [
    | some v ↦ derive_failed resource v
    | none ↦ elim verdicts.not_ready [
      | some v ↦ derive_not_ready resource v
      | none ↦ derive_no_verdict resource
    ]
  ]

  -- deriveSummaryStatus; `print_hash` prints and hashes a status.
  unfoldable pub derive_summary_status :
      (Status → String) → StackResource → VerdictCollector → StackResource
  derive_summary_status print_hash resource verdicts =
      let r1 = derive_conditions (observe resource) verdicts in
      let r2 = record r1 { status = record r1.status { summary = some (summarize r1 verdicts) } } in
      record r2 { status = record r2.status { status_hash = status_hash print_hash r2 } }
