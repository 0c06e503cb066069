-- ===== src/Workload/Deployment/EndToEnd.antt =====
-- From the status of a Deployment to what a client reads of the StackResource.
use cluster_agent.Prelude.{
  String, ◌≡◌, refl, sym, ◌∙◌, ap, Bool, true, false, not, none, is_some, arith, Bool-cases, inl,
  inr, at_or_empty,
}
use cluster_agent.Api.Meta.{ConditionOps}
use cluster_agent.Api.StackResource.{StackResource, Status, workload_available, workload_converged}
use cluster_agent.StackResource.Conditions.{domain_condition_true}
use cluster_agent.StackResource.StatusDerive.{derive_summary_status}
use cluster_agent.StackResource.StatusDerive.Outcome.{outcome, table, derive_summary_status-table}
use cluster_agent.Workload.Readiness.{Pass, check_ports}
use cluster_agent.Workload.Deployment.{
  Deployment, Eval, deployment_serving, deployment_converged, sync_replicas, note_convergence,
  note_serving, note_not_serving, evaluate_deployment_status,
}
use cluster_agent.Workload.Deployment.Ports.{
  available-check_ports, converged-check_ports, not_ready-check_ports,
}
use cluster_agent.Workload.Deployment.Notes.{
  converged-note_convergence, converged-note_serving, available-note_serving,
  available-note_not_serving, pass-serving_result, pass-not_serving_result, gated, gated_gate,
}

module _ ⦃ops : ConditionOps⦄ where
  module _ (e : Eval) (p : Pass) (d : Deployment) where
    abbrev revision : String
    revision = at_or_empty d.annotations "deployment.kubernetes.io/revision"

    abbrev noted : StackResource
    noted = note_convergence e.env.now (deployment_converged d) (sync_replicas p.resource d) d

    abbrev after : Pass
    after = (evaluate_deployment_status e p d).1

    abbrev checked_up : Pass
    checked_up =
        (check_ports e.env
          (record p { resource = note_serving e (deployment_converged d) noted revision }) revision
          true).1

    abbrev checked_down : Pass
    checked_down =
        (check_ports e.env (record p { resource = note_not_serving e noted revision }) revision
          false).1

    evaluate-up : deployment_serving d ≡ true → after ≡ checked_up
    unfolding evaluate_deployment_status
    evaluate-up s =
        rw (s, after, evaluate_deployment_status)
          (pass-serving_result e (deployment_converged d) d (
            check_ports e.env
              (record p { resource = note_serving e (deployment_converged d) noted revision })
              revision true))

    evaluate-down : deployment_serving d ≡ false → after ≡ gated checked_down
    unfolding evaluate_deployment_status
    evaluate-down s =
        rw (s, after, evaluate_deployment_status)
          (pass-not_serving_result e d (
            check_ports e.env (record p { resource = note_not_serving e noted revision }) revision
              false))

    up_available : domain_condition_true checked_up.resource workload_available ≡ true
    up_available =
        available-check_ports e.env _ revision true
        ∙ available-note_serving e (deployment_converged d) noted revision

    up_converged :
        is_some checked_up.verdicts.failed ≡ false
        → domain_condition_true checked_up.resource workload_converged ≡ deployment_converged d
    up_converged h =
        converged-check_ports e.env _ revision true h
        ∙ converged-note_serving e (deployment_converged d) noted revision
        ∙ converged-note_convergence e.env.now (deployment_converged d) (sync_replicas p.resource d)
            d

    down_available : domain_condition_true checked_down.resource workload_available ≡ false
    down_available =
        available-check_ports e.env _ revision false ∙ available-note_not_serving e noted revision

    gate_reported :
        p.verdicts.not_ready ≡ none → is_some after.verdicts.not_ready ≡ not (deployment_serving d)
    gate_reported n = elim (Bool-cases (deployment_serving d)) [
      | inl s ↦
          ap (λ (q : Pass). is_some q.verdicts.not_ready) (evaluate-up s)
          ∙ ap is_some (not_ready-check_ports e.env _ revision true ∙ n)
          ∙ ap not (sym s)
      | inr s ↦
          ap (λ (q : Pass). is_some q.verdicts.not_ready) (evaluate-down s)
          ∙ gated_gate checked_down
          ∙ ap not (sym s)
    ]

    available_after : domain_condition_true after.resource workload_available ≡ deployment_serving d
    available_after = elim (Bool-cases (deployment_serving d)) [
      | inl s ↦
          ap (λ (q : Pass). domain_condition_true q.resource workload_available) (evaluate-up s)
          ∙ up_available
          ∙ sym s
      | inr s ↦
          ap (λ (q : Pass). domain_condition_true q.resource workload_available) (evaluate-down s)
          ∙ down_available
          ∙ sym s
    ]

    converged_after :
        is_some after.verdicts.failed ≡ false
        → deployment_serving d ≡ true
        → domain_condition_true after.resource workload_converged ≡ deployment_converged d
    converged_after h s =
        ap (λ (q : Pass). domain_condition_true q.resource workload_converged) (evaluate-up s)
        ∙ up_converged (sym (ap (λ (q : Pass). is_some q.verdicts.failed) (evaluate-up s)) ∙ h)

    -- A verdict decides the outcome before the facts that it hides.
    table-of :
        (f g a c s t : Bool)
        → g ≡ not s
        → a ≡ s
        → (f ≡ false → s ≡ true → c ≡ t)
        → table f g a c ≡ table f (not s) s t
    table-of true g a c s t eg ea ec = ground (arith, eg, ea)
    table-of false g a c true t eg ea ec = ground (arith, eg, ea, ec refl refl)
    table-of false g a c false t eg ea ec = ground (arith, eg, ea)

    -- For a pass whose gates were all passed before, evaluating a Deployment and deriving the
    -- status gives exactly this: if the pass has a failed verdict, Failed and Stalled, with
    -- Available if the Deployment serves; else Pending where the Deployment does not serve; else
    -- Available, with Ready and Converged if it is converged and Degraded if not.
    pub evaluate-outcome :
        (print_hash : Status → String)
        → p.verdicts.not_ready ≡ none
        → outcome (derive_summary_status print_hash after.resource after.verdicts)
          ≡ table
              (is_some after.verdicts.failed)
              (not (deployment_serving d))
              (deployment_serving d)
              (deployment_converged d)
    evaluate-outcome print_hash n =
        derive_summary_status-table print_hash after.resource after.verdicts
        ∙ table-of (is_some after.verdicts.failed) (is_some after.verdicts.not_ready)
            (domain_condition_true after.resource workload_available)
            (domain_condition_true after.resource workload_converged) (deployment_serving d)
            (deployment_converged d) (gate_reported n) available_after converged_after
