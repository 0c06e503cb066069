-- ===== src/StackResource/StatusDerive/Outcome.antt =====
-- What a client reads after the derivation, as a table over the verdicts and the workload's facts.
use cluster_agent.Prelude.{
  String, ◌≡◌, refl, Bool, true, false, Option, some, none, inl, inr, Bool-cases, Option-cases, ◌∙◌,
  is_some, str_eq, arith, ◌==◌, if◌then◌else◌,
}
use cluster_agent.Api.Meta.{ConditionOps, ConditionStatus, cond_true, cond_false, status_of_bool}
use cluster_agent.Api.StackResource.{
  StackResource, Status, DomainCondition, StatusCondition, Phase, pending, ready, degraded, failed,
  status_text, workload_available, workload_converged, status_available,
}
use cluster_agent.Controller.Verdict.{Verdict, VerdictCollector}
use cluster_agent.StackResource.Conditions.{
  set_summary_condition, domain_condition_true, domain_condition_text,
}
use cluster_agent.StackResource.Conditions.Separation.{
  summary_of, domain-set_summary, summary-set_summary,
}
use cluster_agent.StackResource.StatusDerive.{
  set_phase, set_image_source_revision, observe, derive_failed, derive_not_ready, derive_no_verdict,
  derive_conditions, derive_summary_status,
}

-- What a client reads: the phase, and the status of each summary condition if it describes the
-- current generation.
pub record Outcome : Type 0 where
  pub phase : Phase
  pub available : Option ConditionStatus
  pub stalled : Option ConditionStatus
  pub converged : Option ConditionStatus

-- An independent account of what they mean: a terminal failure, then a gate that is not passed,
-- then the facts that the workload reported.
abbrev pub table : Bool → Bool → Bool → Bool → Outcome
table true gated serving settled = record {
  phase = failed;
  available = some (status_of_bool serving);
  stalled = some cond_true;
  converged = some cond_false;
}
table false true serving settled = record {
  phase = pending;
  available = some cond_false;
  stalled = some cond_false;
  converged = some cond_false;
}
table false false serving settled = record {
  phase = if settled then ready else degraded;
  available = some (status_of_bool serving);
  stalled = some cond_false;
  converged = some (status_of_bool settled);
}

module _ ⦃ops : ConditionOps⦄ where
  unfoldable pub seen : StackResource → StatusCondition → Option ConditionStatus
  seen r t = elim (summary_of r t) [
    | none ↦ none
    | some c ↦ if c.observed_generation == r.metadata.generation then some c.status else none
  ]

  abbrev pub outcome : StackResource → Outcome
  outcome r = record {
    phase = r.status.phase;
    available = seen r status_available;
    stalled = seen r StatusCondition.stalled;
    converged = seen r StatusCondition.converged;
  }

  -- A write of one summary condition.
  pub true-set_summary :
      (r : StackResource) (t : StatusCondition) (s : Bool) (reason msg : String)
      (d : DomainCondition)
      → domain_condition_true (set_summary_condition r t s reason msg) d ≡ domain_condition_true r d
  unfolding domain_condition_true set_summary_condition
  true-set_summary r t s reason msg d = ground (arith, domain-set_summary r t s reason msg d)

  pub seen-set_summary :
      (r : StackResource) (t u : StatusCondition) (s : Bool) (reason msg : String)
      → seen (set_summary_condition r t s reason msg) u
        ≡ (if str_eq (status_text t) (status_text u) then some (status_of_bool s) else seen r u)
  unfolding seen set_summary_condition
  seen-set_summary r t u s reason msg = ground (arith, summary-set_summary r t u s reason msg)

  pub phase-set_summary :
      (r : StackResource) (t : StatusCondition) (s : Bool) (reason msg : String)
      → (set_summary_condition r t s reason msg).status.phase ≡ r.status.phase
  unfolding set_summary_condition
  phase-set_summary r t s reason msg = refl

  -- The writes that leave the conditions alone.
  pub true-set_phase :
      (r : StackResource) (p : Phase) (d : DomainCondition)
      → domain_condition_true (set_phase r p) d ≡ domain_condition_true r d
  unfolding domain_condition_true set_phase
  true-set_phase r p d = refl

  pub seen-set_phase :
      (r : StackResource) (p : Phase) (t : StatusCondition) → seen (set_phase r p) t ≡ seen r t
  unfolding seen set_phase
  seen-set_phase r p t = refl

  pub phase-set_phase : (r : StackResource) (p : Phase) → (set_phase r p).status.phase ≡ p
  unfolding set_phase
  phase-set_phase r p = refl

  pub ruleset set_laws = (
    true-set_summary, seen-set_summary, phase-set_summary, true-set_phase, seen-set_phase,
    phase-set_phase,
  )

  derive_failed-outcome :
      (r : StackResource) (v : Verdict)
      → outcome (derive_failed r v)
        ≡ table true false (domain_condition_true r workload_available) false
  unfolding derive_failed
  derive_failed-outcome r v = elim (Bool-cases (domain_condition_true r workload_available)) [
    | inl e ↦ simp (set_laws, e)
    | inr e ↦ simp (set_laws, e)
  ]

  derive_not_ready-outcome :
      (r : StackResource) (v : Verdict)
      → outcome (derive_not_ready r v) ≡ table false true false false
  unfolding derive_not_ready
  derive_not_ready-outcome r v = simp set_laws

  -- The recorded source revision is no part of the outcome.
  pub true-set_image_source_revision :
      (r : StackResource) (d : DomainCondition)
      → domain_condition_true (set_image_source_revision r) d ≡ domain_condition_true r d
  unfolding domain_condition_true set_image_source_revision
  true-set_image_source_revision r d = elim (Option-cases r.spec.build_spec) [
    | inl e ↦ rw (e, set_image_source_revision)
    | inr (b, e) ↦ rw (e, set_image_source_revision)
  ]

  -- The status that `domain_condition_text` reads is the one that `domain_condition_true` reads.
  pub text_status :
      (r : StackResource) (d : DomainCondition) (reason msg : String)
      → (domain_condition_text r d reason msg).0 ≡ domain_condition_true r d
  unfolding domain_condition_text domain_condition_true
  text_status r d reason msg = ground arith

  outcome-derive_no_verdict :
      (r : StackResource)
      → outcome (derive_no_verdict r)
        ≡ table false false
            (domain_condition_true r workload_available)
            (domain_condition_true r workload_converged)
  unfolding derive_no_verdict
  outcome-derive_no_verdict r = simp (set_laws, text_status, true-set_image_source_revision)

  pub true-observe :
      (r : StackResource) (d : DomainCondition)
      → domain_condition_true (observe r) d ≡ domain_condition_true r d
  unfolding domain_condition_true observe
  true-observe r d = ground arith

  outcome-derive_conditions :
      (r : StackResource) (verdicts : VerdictCollector)
      → outcome (derive_conditions r verdicts)
        ≡ table
            (is_some verdicts.failed)
            (is_some verdicts.not_ready)
            (domain_condition_true r workload_available)
            (domain_condition_true r workload_converged)
  unfolding derive_conditions
  outcome-derive_conditions r verdicts = elim (Option-cases verdicts.failed) [
    | inl no_failure ↦ elim (Option-cases verdicts.not_ready) [
      | inl no_gate ↦ rw (no_failure, no_gate, derive_conditions) (outcome-derive_no_verdict r)
      | inr (v, gate) ↦ rw (no_failure, gate, derive_conditions) (derive_not_ready-outcome r v)
    ]
    | inr (v, failure) ↦ rw (failure, derive_conditions) (derive_failed-outcome r v)
  ]

  -- For every resource and collector, the derived phase and the Available, Stalled and Converged
  -- conditions, read at the current generation, are those of `table`: a failed verdict gives
  -- Failed, Stalled and not Converged, with Available following the workload; a not-ready verdict
  -- gives Pending and all three False; otherwise Available and Converged follow the workload's
  -- own conditions at this generation and the phase is Ready or Degraded.
  pub derive_summary_status-table :
      (print_hash : Status → String) (r : StackResource) (verdicts : VerdictCollector)
      → outcome (derive_summary_status print_hash r verdicts)
        ≡ table
            (is_some verdicts.failed)
            (is_some verdicts.not_ready)
            (domain_condition_true r workload_available)
            (domain_condition_true r workload_converged)
  unfolding derive_summary_status seen
  derive_summary_status-table print_hash r verdicts =
      outcome-derive_conditions (observe r) verdicts ∙ simp true-observe
