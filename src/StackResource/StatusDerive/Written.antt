-- ===== src/StackResource/StatusDerive/Written.antt =====
-- What the derivation writes, in full, as an account of the facts that it reads.
use cluster_agent.Prelude.{
  ℕ, String, ◌≡◌, refl, Bool, true, false, Option, some, inl, inr, Bool-cases, Option-cases, str_eq,
  concat, [], ◌∷◌, if◌then◌else◌,
}
use cluster_agent.Api.Meta.{Condition, ConditionOps, status_of_bool}
use cluster_agent.Api.StackResource.{
  StackResource, DomainCondition, StatusCondition, Phase, pending, ready, degraded, failed,
  status_text, workload_available, workload_converged, status_available,
}
use cluster_agent.Controller.Verdict.{Verdict}
use cluster_agent.StackResource.Conditions.{
  set_summary_condition, domain_condition_true, domain_condition_text,
}
use cluster_agent.StackResource.Conditions.Separation.{summary_of, summary-set_summary}
use cluster_agent.StackResource.StatusDerive.{
  set_phase, set_image_source_revision, derive_failed, derive_not_ready, derive_no_verdict,
  availability_text,
}
use cluster_agent.StackResource.StatusDerive.Outcome.{
  true-set_summary, true-set_phase, phase-set_summary, phase-set_phase,
  true-set_image_source_revision, true-observe,
}
use cluster_agent.StackResource.StatusDerive.Unread.{generation-set_summary, text-set_summary}

-- The phase and the three summary conditions whole, with their reasons and messages.
pub record Written : Type 0 where
  pub phase : Phase
  pub available : Option Condition
  pub stalled : Option Condition
  pub converged : Option Condition

abbrev pub written_condition : ℕ → StatusCondition → Bool → String → String → Condition
written_condition generation t b reason message = record {
  type = status_text t;
  status = status_of_bool b;
  observed_generation = generation;
  reason = reason;
  message = message;
}

-- What is written at a generation, from the facts that the derivation reads.
abbrev pub failed_account : ℕ → Verdict → Bool → Written
failed_account g v serving = record {
  phase = failed;
  available = some (
      if serving
      then written_condition g status_available true "ServingButStalled"
          (concat ("workload serving; terminal failure: " ∷ v.message ∷ []))
      else written_condition g status_available false v.reason v.message);
  stalled = some (written_condition g StatusCondition.stalled true v.reason v.message);
  converged = some (written_condition g StatusCondition.converged false v.reason v.message);
}

abbrev pub waiting_account : ℕ → Verdict → Written
waiting_account g v = record {
  phase = pending;
  available = some (written_condition g status_available false v.reason v.message);
  stalled = some (written_condition g StatusCondition.stalled false v.reason v.message);
  converged = some (written_condition g StatusCondition.converged false v.reason v.message);
}

abbrev pub running_account : ℕ → Bool → Bool × String × String → Written
running_account g serving (settled, reason, message) =
    let text = availability_text serving settled in
    record {
      phase = if settled then ready else degraded;
      available = some (written_condition g status_available serving text.0 text.1);
      stalled = some (written_condition g StatusCondition.stalled false text.0 text.1);
      converged = some (written_condition g StatusCondition.converged settled reason message);
    }

module _ ⦃ops : ConditionOps⦄ where
  abbrev pub written : StackResource → Written
  written r = record {
    phase = r.status.phase;
    available = summary_of r status_available;
    stalled = summary_of r StatusCondition.stalled;
    converged = summary_of r StatusCondition.converged;
  }

  pub written-set_summary :
      (r : StackResource) (t u : StatusCondition) (s : Bool) (reason msg : String)
      → summary_of (set_summary_condition r t s reason msg) u ≡ (
          if str_eq (status_text t) (status_text u)
          then some (written_condition r.metadata.generation t s reason msg)
          else summary_of r u)
  written-set_summary r t u s reason msg = summary-set_summary r t u s reason msg

  pub summary-set_phase :
      (r : StackResource) (p : Phase) (t : StatusCondition)
      → summary_of (set_phase r p) t ≡ summary_of r t
  unfolding set_phase
  summary-set_phase r p t = refl

  pub generation-set_phase :
      (r : StackResource) (p : Phase) → (set_phase r p).metadata.generation ≡ r.metadata.generation
  unfolding set_phase
  generation-set_phase r p = refl

  pub text-set_phase :
      (r : StackResource) (p : Phase) (d : DomainCondition) (a b : String)
      → domain_condition_text (set_phase r p) d a b ≡ domain_condition_text r d a b
  unfolding set_phase domain_condition_text
  text-set_phase r p d a b = refl

  pub text-set_image_source_revision :
      (r : StackResource) (d : DomainCondition) (a b : String)
      → domain_condition_text (set_image_source_revision r) d a b ≡ domain_condition_text r d a b
  unfolding domain_condition_text set_image_source_revision
  text-set_image_source_revision r d a b = elim (Option-cases r.spec.build_spec) [
    | inl e ↦ rw (e, set_image_source_revision)
    | inr (s, e) ↦ rw (e, set_image_source_revision)
  ]

  pub generation-set_image_source_revision :
      (r : StackResource)
      → (set_image_source_revision r).metadata.generation ≡ r.metadata.generation
  unfolding set_image_source_revision
  generation-set_image_source_revision r = elim (Option-cases r.spec.build_spec) [
    | inl e ↦ rw (e, set_image_source_revision)
    | inr (s, e) ↦ rw (e, set_image_source_revision)
  ]

  pub ruleset write_laws = (
    written-set_summary, summary-set_phase, generation-set_phase, generation-set_summary,
    text-set_phase, text-set_summary, text-set_image_source_revision,
    generation-set_image_source_revision, true-set_summary, true-set_phase, phase-set_summary,
    phase-set_phase, true-set_image_source_revision,
  )

  pub derive_failed-written :
      (r : StackResource) (v : Verdict)
      → written (derive_failed r v)
        ≡ failed_account r.metadata.generation v (domain_condition_true r workload_available)
  unfolding derive_failed
  derive_failed-written r v = elim (Bool-cases (domain_condition_true r workload_available)) [
    | inl e ↦ simp (write_laws, e)
    | inr e ↦ simp (write_laws, e)
  ]

  pub derive_not_ready-written :
      (r : StackResource) (v : Verdict)
      → written (derive_not_ready r v) ≡ waiting_account r.metadata.generation v
  unfolding derive_not_ready
  derive_not_ready-written r v = simp write_laws

  pub derive_no_verdict-written :
      (r : StackResource)
      → written (derive_no_verdict r)
        ≡ running_account r.metadata.generation (domain_condition_true r workload_available) (
            domain_condition_text r workload_converged "WorkloadNotConverged"
              "workload has not converged")
  unfolding derive_no_verdict
  derive_no_verdict-written r = simp write_laws
