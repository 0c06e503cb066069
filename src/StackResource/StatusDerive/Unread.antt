-- ===== src/StackResource/StatusDerive/Unread.antt =====
-- The writes of the derivation that the summary does not read.
use cluster_agent.Prelude.{
  String, lookup, ◌≡◌, refl, Bool, inl, inr, Bool-cases, Option-cases, arith,
}
use cluster_agent.Api.Meta.{ConditionOps, ConditionStatus}
use cluster_agent.Api.StackResource.{
  StackResource, DomainCondition, StatusCondition, Phase, workload_available, FailureType,
}
use cluster_agent.Controller.Verdict.{Verdict, VerdictCollector}
use cluster_agent.StackResource.Conditions.{
  set_summary_condition, domain_condition, domain_condition_true, domain_condition_text,
}
use cluster_agent.StackResource.Conditions.Separation.{domain-set_summary}
use cluster_agent.StackResource.Summary.{
  summarize, classify, failure_detail, declared_failing_ports, deploying_detail,
  append_serving_note,
}
use cluster_agent.StackResource.StatusDerive.{
  set_phase, set_image_source_revision, observe, derive_failed, derive_not_ready, derive_no_verdict,
  derive_conditions, revision_annotation,
}
use cluster_agent.StackResource.StatusDerive.Outcome.{true-set_summary, set_laws}

module _ ⦃ops : ConditionOps⦄ where
  -- What `summarize` reads is left alone by a write of a summary condition.
  condition-set_summary :
      (r : StackResource) (t : StatusCondition) (s : Bool) (reason msg : String)
      (d : DomainCondition) (u : ConditionStatus)
      → domain_condition (set_summary_condition r t s reason msg) d u ≡ domain_condition r d u
  unfolding domain_condition set_summary_condition
  condition-set_summary r t s reason msg d u = ground (arith, domain-set_summary r t s reason msg d)

  pub text-set_summary :
      (r : StackResource) (t : StatusCondition) (s : Bool) (reason msg : String)
      (d : DomainCondition) (a b : String)
      → domain_condition_text (set_summary_condition r t s reason msg) d a b
        ≡ domain_condition_text r d a b
  unfolding domain_condition_text set_summary_condition
  text-set_summary r t s reason msg d a b = ground (arith, domain-set_summary r t s reason msg d)

  failure-set_summary :
      (r : StackResource) (t : StatusCondition) (s : Bool) (reason msg : String) (f : FailureType)
      → failure_detail (set_summary_condition r t s reason msg) f ≡ failure_detail r f
  unfolding failure_detail set_summary_condition
  failure-set_summary r t s reason msg f = refl

  ports-set_summary :
      (r : StackResource) (t : StatusCondition) (s : Bool) (reason msg : String)
      → declared_failing_ports (set_summary_condition r t s reason msg) ≡ declared_failing_ports r
  unfolding declared_failing_ports set_summary_condition
  ports-set_summary r t s reason msg = refl

  pub generation-set_summary :
      (r : StackResource) (t : StatusCondition) (s : Bool) (reason msg : String)
      → (set_summary_condition r t s reason msg).metadata.generation ≡ r.metadata.generation
  unfolding set_summary_condition
  generation-set_summary r t s reason msg = refl

  ruleset set_facts = (
    condition-set_summary, text-set_summary, failure-set_summary, ports-set_summary,
    generation-set_summary, true-set_summary,
  )

  pub summarize-set_summary :
      (r : StackResource) (t : StatusCondition) (s : Bool) (reason msg : String)
      (verdicts : VerdictCollector)
      → summarize (set_summary_condition r t s reason msg) verdicts ≡ summarize r verdicts
  unfolding summarize classify deploying_detail append_serving_note
  summarize-set_summary r t s reason msg verdicts = simp set_facts

  summarize-set_phase :
      (r : StackResource) (p : Phase) (verdicts : VerdictCollector)
      → summarize (set_phase r p) verdicts ≡ summarize r verdicts
  unfolding summarize classify deploying_detail append_serving_note set_phase domain_condition
      domain_condition_true domain_condition_text failure_detail declared_failing_ports
  summarize-set_phase r p verdicts = refl

  summarize-set_image_source_revision :
      (r : StackResource) (verdicts : VerdictCollector)
      → summarize (set_image_source_revision r) verdicts ≡ summarize r verdicts
  unfolding summarize classify deploying_detail append_serving_note domain_condition
      domain_condition_true domain_condition_text failure_detail declared_failing_ports
      set_image_source_revision
  summarize-set_image_source_revision r verdicts = elim (Option-cases r.spec.build_spec) [
    | inl e ↦ rw (e, set_image_source_revision)
    | inr (b, e) ↦ rw (e, set_image_source_revision)
  ]

  pub summarize-observe :
      (r : StackResource) (verdicts : VerdictCollector)
      → summarize (observe r) verdicts ≡ summarize r verdicts
  unfolding summarize classify deploying_detail append_serving_note domain_condition
      domain_condition_true domain_condition_text failure_detail declared_failing_ports observe
  summarize-observe r verdicts =
      elim (Option-cases (lookup r.metadata.annotations revision_annotation)) [
        | inl e ↦ rw (e, observe)
        | inr (b, e) ↦ rw (e, observe)
      ]

  ruleset summary_laws = (
    summarize-set_summary, summarize-set_phase, summarize-set_image_source_revision,
    summarize-observe,
  )

  summarize-derive_failed :
      (r : StackResource) (v : Verdict) (verdicts : VerdictCollector)
      → summarize (derive_failed r v) verdicts ≡ summarize r verdicts
  unfolding derive_failed
  summarize-derive_failed r v verdicts =
      elim (Bool-cases (domain_condition_true r workload_available)) [
        | inl e ↦ simp (set_laws, e) (simp summary_laws)
        | inr e ↦ simp (set_laws, e) (simp summary_laws)
      ]

  pub summarize-derive_conditions :
      (r : StackResource) (verdicts others : VerdictCollector)
      → summarize (derive_conditions r verdicts) others ≡ summarize r others
  unfolding derive_conditions derive_not_ready derive_no_verdict
  summarize-derive_conditions r verdicts others = elim (Option-cases verdicts.failed) [
    | inl no_failure ↦ elim (Option-cases verdicts.not_ready) [
      | inl no_gate ↦ rw (no_failure, no_gate, derive_conditions) (simp summary_laws)
      | inr (v, gate) ↦ rw (no_failure, gate, derive_conditions) (simp summary_laws)
    ]
    | inr (v, failure) ↦ rw (failure, derive_conditions) (summarize-derive_failed r v others)
  ]
