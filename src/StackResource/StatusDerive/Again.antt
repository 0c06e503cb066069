-- ===== src/StackResource/StatusDerive/Again.antt =====
-- Deriving a status from a resource whose status was derived with the same verdicts.
use cluster_agent.Prelude.{
  ℕ, String, ◌≡◌, ◌∙◌, sym, ap, Bool, some, none, inl, inr, Bool-cases, Option-cases, arith,
}
use cluster_agent.Api.Meta.{ConditionOps}
use cluster_agent.Api.StackResource.{
  StackResource, Status, DomainCondition, workload_available, workload_converged,
}
use cluster_agent.Controller.Verdict.{Verdict, VerdictCollector}
use cluster_agent.StackResource.Conditions.{domain_condition_true, domain_condition_text}
use cluster_agent.StackResource.StatusDerive.{
  observe, derive_failed, derive_not_ready, derive_no_verdict, derive_conditions,
  derive_summary_status,
}
use cluster_agent.StackResource.StatusDerive.Outcome.{true-observe}
use cluster_agent.StackResource.StatusDerive.Agreement.{
  true-derive, summarize-derive, derive_summary_status-summary,
}
use cluster_agent.StackResource.StatusDerive.Written.{
  Written, written, failed_account, waiting_account, running_account, write_laws,
  derive_failed-written, derive_not_ready-written, derive_no_verdict-written,
}

module _ ⦃ops : ConditionOps⦄ where
  abbrev converged_text : StackResource → Bool × String × String
  converged_text r =
      domain_condition_text r workload_converged "WorkloadNotConverged" "workload has not converged"

  abbrev account : ℕ → VerdictCollector → Bool → Bool × String × String → Written
  account g verdicts serving text = elim verdicts.failed [
    | some v ↦ failed_account g v serving
    | none ↦ elim verdicts.not_ready [
      | some v ↦ waiting_account g v
      | none ↦ running_account g serving text
    ]
  ]

  derive_conditions-written :
      (r : StackResource) (verdicts : VerdictCollector)
      → written (derive_conditions r verdicts)
        ≡ account r.metadata.generation verdicts
            (domain_condition_true r workload_available)
            (converged_text r)
  unfolding derive_conditions
  derive_conditions-written r verdicts = elim (Option-cases verdicts.failed) [
    | inl no_failure ↦ elim (Option-cases verdicts.not_ready) [
      | inl no_gate ↦ rw (no_failure, no_gate, derive_conditions) (derive_no_verdict-written r)
      | inr (v, gate) ↦ rw (no_failure, gate, derive_conditions) (derive_not_ready-written r v)
    ]
    | inr (v, failure) ↦ rw (failure, derive_conditions) (derive_failed-written r v)
  ]

  text-derive_conditions :
      (r : StackResource) (verdicts : VerdictCollector) (d : DomainCondition) (a b : String)
      → domain_condition_text (derive_conditions r verdicts) d a b ≡ domain_condition_text r d a b
  unfolding derive_conditions derive_failed derive_not_ready derive_no_verdict
  text-derive_conditions r verdicts d a b = elim (Option-cases verdicts.failed) [
    | inl no_failure ↦ elim (Option-cases verdicts.not_ready) [
      | inl no_gate ↦ rw (no_failure, no_gate, derive_conditions) (simp write_laws)
      | inr (v, gate) ↦ rw (no_failure, gate, derive_conditions) (simp write_laws)
    ]
    | inr (v, failure) ↦ rw (failure, derive_conditions) (text-derive_failed v)
  ]
    where
      text-derive_failed :
          (v : Verdict)
          → domain_condition_text (derive_failed r v) d a b ≡ domain_condition_text r d a b
      text-derive_failed v = elim (Bool-cases (domain_condition_true r workload_available)) [
        | inl e ↦ simp (write_laws, e)
        | inr e ↦ simp (write_laws, e)
      ]

  generation-derive_conditions :
      (r : StackResource) (verdicts : VerdictCollector)
      → (derive_conditions r verdicts).metadata.generation ≡ r.metadata.generation
  unfolding derive_conditions derive_failed derive_not_ready derive_no_verdict
  generation-derive_conditions r verdicts = elim (Option-cases verdicts.failed) [
    | inl no_failure ↦ elim (Option-cases verdicts.not_ready) [
      | inl no_gate ↦ rw (no_failure, no_gate, derive_conditions) (simp write_laws)
      | inr (v, gate) ↦ rw (no_failure, gate, derive_conditions) (simp write_laws)
    ]
    | inr (v, failure) ↦ rw (failure, derive_conditions) (generation-derive_failed v)
  ]
    where
      generation-derive_failed :
          (v : Verdict) → (derive_failed r v).metadata.generation ≡ r.metadata.generation
      generation-derive_failed v = elim (Bool-cases (domain_condition_true r workload_available)) [
        | inl e ↦ simp (write_laws, e)
        | inr e ↦ simp (write_laws, e)
      ]

  text-observe :
      (r : StackResource) (d : DomainCondition) (a b : String)
      → domain_condition_text (observe r) d a b ≡ domain_condition_text r d a b
  unfolding domain_condition_text observe
  text-observe r d a b = ground arith

  -- What a derivation writes, from the facts of the resource that it started from.
  derive-written :
      (print_hash : Status → String) (r : StackResource) (verdicts : VerdictCollector)
      → written (derive_summary_status print_hash r verdicts)
        ≡ account r.metadata.generation verdicts
            (domain_condition_true r workload_available)
            (converged_text r)
  unfolding derive_summary_status observe
  derive-written print_hash r verdicts =
      derive_conditions-written (observe r) verdicts ∙ simp (true-observe, text-observe)

  text-derive :
      (print_hash : Status → String) (r : StackResource) (verdicts : VerdictCollector)
      → converged_text (derive_summary_status print_hash r verdicts) ≡ converged_text r
  unfolding derive_summary_status domain_condition_text
  text-derive print_hash r verdicts =
      text-derive_conditions (observe r) verdicts workload_converged "WorkloadNotConverged"
        "workload has not converged"
      ∙ text-observe r workload_converged "WorkloadNotConverged" "workload has not converged"

  generation-derive :
      (print_hash : Status → String) (r : StackResource) (verdicts : VerdictCollector)
      → (derive_summary_status print_hash r verdicts).metadata.generation ≡ r.metadata.generation
  unfolding derive_summary_status observe
  generation-derive print_hash r verdicts = generation-derive_conditions (observe r) verdicts

  same_account :
      (verdicts : VerdictCollector)
      → {g h : ℕ} {a b : Bool} {t u : Bool × String × String} → g ≡ h
      → a ≡ b
      → t ≡ u
      → account g verdicts a t ≡ account h verdicts b u
  same_account verdicts p q r i = account (p i) verdicts (q i) (r i)

  -- Deriving again with the same verdicts changes neither the phase, nor the Available, Stalled and
  -- Converged conditions with their reasons, messages and generations, nor the summary.
  pub derive_summary_status_idem :
      (print_hash : Status → String) (r : StackResource) (verdicts : VerdictCollector)
      → let once = derive_summary_status print_hash r verdicts in
        let twice = derive_summary_status print_hash once verdicts in
        (written twice ≡ written once) × (twice.status.summary ≡ once.status.summary)
  derive_summary_status_idem print_hash r verdicts =
      let once = derive_summary_status print_hash r verdicts in
      (
        derive-written print_hash once verdicts
            ∙ same_account verdicts (generation-derive print_hash r verdicts)
                (true-derive print_hash r verdicts workload_available)
                (text-derive print_hash r verdicts)
            ∙ sym (derive-written print_hash r verdicts),
        derive_summary_status-summary print_hash once verdicts
            ∙ ap some (summarize-derive print_hash r verdicts verdicts)
            ∙ sym (derive_summary_status-summary print_hash r verdicts),
      )
