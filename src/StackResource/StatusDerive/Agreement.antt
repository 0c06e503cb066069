-- ===== src/StackResource/StatusDerive/Agreement.antt =====
-- The rolled-up summary: it is decided by the facts that the pass started from, and it agrees with
-- the phase and the conditions.
use cluster_agent.Prelude.{
  sym, some_inj, String, ◌≡◌, ◌∙◌, ap, true, false, Option, some, none, inl, inr, Bool-cases,
  Option-cases, is_some, arith, ◌⊎◌, ◌↔◌,
}
use cluster_agent.Api.Meta.{ConditionOps}
use cluster_agent.Api.StackResource.{
  StackResource, Status, DomainCondition, pending, failed, workload_available, workload_converged,
  runtime_crash, summary_ready, summary_failed, SummaryState,
}
use cluster_agent.Controller.Verdict.{Verdict, VerdictCollector}
use cluster_agent.StackResource.Conditions.{
  domain_condition, domain_condition_true, domain_condition_text,
}
use cluster_agent.StackResource.Summary.{
  summarize, classify, failure_detail, declared_failing_ports, deploying_detail,
  append_serving_note,
}
use cluster_agent.StackResource.StatusDerive.{
  observe, derive_failed, derive_not_ready, derive_no_verdict, derive_conditions,
  derive_summary_status,
}
use cluster_agent.StackResource.StatusDerive.Outcome.{
  Outcome, outcome, table, true-set_image_source_revision, true-observe, set_laws,
  derive_summary_status-table,
}
use cluster_agent.StackResource.StatusDerive.Unread.{summarize-observe, summarize-derive_conditions}

abbrev pub all_good : Outcome
all_good = table false false true true

abbrev pub summary_state : StackResource → Option SummaryState
summary_state r = elim r.status.summary [ none ↦ none | some s ↦ some s.state ]

module _ ⦃ops : ConditionOps⦄ where
  -- The summary that the derivation publishes is the one computed from the resource as the pass
  -- left it: none of the conditions that the derivation itself writes changes the verdict.
  pub derive_summary_status-summary :
      (print_hash : Status → String) (r : StackResource) (verdicts : VerdictCollector)
      → (derive_summary_status print_hash r verdicts).status.summary ≡ some (summarize r verdicts)
  unfolding derive_summary_status
  derive_summary_status-summary print_hash r verdicts =
      ap some
        (summarize-derive_conditions (observe r) verdicts verdicts ∙ summarize-observe r verdicts)

  state_ready :
      (r : StackResource) (verdicts : VerdictCollector)
      → ((summarize r verdicts).state ≡ summary_ready) ↔ (
          table
            (is_some verdicts.failed)
            (is_some verdicts.not_ready)
            (domain_condition_true r workload_available)
            (domain_condition_true r workload_converged)
          ≡ all_good)
  unfolding summarize classify domain_condition_true
  state_ready r verdicts = ground arith

  summary_state-derive :
      (print_hash : Status → String) (r : StackResource) (verdicts : VerdictCollector)
      → summary_state (derive_summary_status print_hash r verdicts)
        ≡ some (summarize r verdicts).state
  summary_state-derive print_hash r verdicts =
      rw (derive_summary_status-summary print_hash r verdicts)

  -- The published summary is Ready exactly when the phase is Ready, Available and Converged are
  -- True and Stalled is False, all at the current generation.
  pub summary_ready_iff :
      (print_hash : Status → String) (r : StackResource) (verdicts : VerdictCollector)
      → (summary_state (derive_summary_status print_hash r verdicts) ≡ some summary_ready)
        ↔ (outcome (derive_summary_status print_hash r verdicts) ≡ all_good)
  summary_ready_iff print_hash r verdicts = rw (summary_state-derive print_hash r verdicts) (
      rw (derive_summary_status-table print_hash r verdicts)
        (λ h. (state_ready r verdicts).0 (some_inj h), λ h. ap some ((state_ready r verdicts).1 h)))

  state_failed :
      (r : StackResource) (verdicts : VerdictCollector)
      → (summarize r verdicts).state ≡ summary_failed
      → (is_some verdicts.failed ≡ true)
        ⊎ ((is_some verdicts.failed ≡ false)
            × (is_some verdicts.not_ready ≡ true)
            × (is_some (failure_detail r runtime_crash) ≡ true))
  unfolding summarize classify domain_condition_true
  state_failed r verdicts h = ground arith

  -- A published summary that reads Failed is backed by a failed verdict and the phase Failed, or
  -- by the phase Pending and a recorded crash.
  pub summary_failed_means :
      (print_hash : Status → String) (r : StackResource) (verdicts : VerdictCollector)
      → summary_state (derive_summary_status print_hash r verdicts) ≡ some summary_failed
      → ((is_some verdicts.failed ≡ true)
          × ((derive_summary_status print_hash r verdicts).status.phase ≡ failed))
        ⊎ ((is_some (failure_detail r runtime_crash) ≡ true)
            × ((derive_summary_status print_hash r verdicts).status.phase ≡ pending))
  summary_failed_means print_hash r verdicts h =
      elim (state_failed r verdicts
        (some_inj (sym (summary_state-derive print_hash r verdicts) ∙ h))) [
          | inl f ↦ inl (f, phase ∙ rw f)
          | inr (f, g, c) ↦ inr (c, phase ∙ rw (f, g))
        ]
    where
      phase :
          (derive_summary_status print_hash r verdicts).status.phase
          ≡ (table
              (is_some verdicts.failed)
              (is_some verdicts.not_ready)
              (domain_condition_true r workload_available)
              (domain_condition_true r workload_converged)).phase
      phase = ap (λ (o : Outcome). o.phase) (derive_summary_status-table print_hash r verdicts)

  -- A domain condition reads after the derivation as it did before.
  true-derive_conditions :
      (r : StackResource) (verdicts : VerdictCollector) (d : DomainCondition)
      → domain_condition_true (derive_conditions r verdicts) d ≡ domain_condition_true r d
  unfolding derive_conditions derive_failed derive_not_ready derive_no_verdict
  true-derive_conditions r verdicts d = elim (Option-cases verdicts.failed) [
    | inl no_failure ↦ elim (Option-cases verdicts.not_ready) [
      | inl no_gate ↦
          rw (no_failure, no_gate, derive_conditions)
            (simp (set_laws, true-set_image_source_revision))
      | inr (v, gate) ↦ rw (no_failure, gate, derive_conditions) (simp set_laws)
    ]
    | inr (v, failure) ↦ rw (failure, derive_conditions) (true-derive_failed v)
  ]
    where
      true-derive_failed :
          (v : Verdict) → domain_condition_true (derive_failed r v) d ≡ domain_condition_true r d
      true-derive_failed v = elim (Bool-cases (domain_condition_true r workload_available)) [
        | inl e ↦ simp (set_laws, e)
        | inr e ↦ simp (set_laws, e)
      ]

  pub true-derive :
      (print_hash : Status → String) (r : StackResource) (verdicts : VerdictCollector)
      (d : DomainCondition)
      → domain_condition_true (derive_summary_status print_hash r verdicts) d
        ≡ domain_condition_true r d
  unfolding derive_summary_status domain_condition_true
  true-derive print_hash r verdicts d =
      true-derive_conditions (observe r) verdicts d ∙ true-observe r d

  pub summarize-derive :
      (print_hash : Status → String) (r : StackResource) (verdicts others : VerdictCollector)
      → summarize (derive_summary_status print_hash r verdicts) others ≡ summarize r others
  unfolding derive_summary_status summarize classify deploying_detail append_serving_note
      domain_condition domain_condition_true domain_condition_text failure_detail
      declared_failing_ports
  summarize-derive print_hash r verdicts others =
      summarize-derive_conditions (observe r) verdicts others ∙ summarize-observe r others
