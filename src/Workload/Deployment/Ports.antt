-- ===== src/Workload/Deployment/Ports.antt =====
-- What the port checks leave alone.
use cluster_agent.Prelude.{
  String, none, ◌⊎◌, ◌≡◌, refl, sym, ◌∙◌, ap, Bool, true, false, is_some, arith, Bool-cases, inl,
  inr, str_eq, if◌then◌else◌,
}
use cluster_agent.Api.Meta.{ConditionOps, cond_true, cond_false, Duration}
use cluster_agent.Api.StackResource.{
  StackResource, DomainCondition, domain_text, workload_available, workload_converged,
}
use cluster_agent.Controller.Verdict.{report_failed}
use cluster_agent.StackResource.Conditions.{set_resource_condition, domain_condition_true}
use cluster_agent.Workload.Readiness.{
  Env, Pass, verify_ports, ask, judge, judge_closed, no_answer, schedule_port_check,
  record_port_failure, port_diagnosis_allowed, set_port_check, report_port_not_listening,
  after_verdict, check_ports,
}
use cluster_agent.Workload.Readiness.Failed.{verdicts-verify_ports}

module _ ⦃ops : ConditionOps⦄ where
  pub true-set_resource :
      (r : StackResource) (t : DomainCondition) (s : Bool) (reason msg : String)
      (d : DomainCondition)
      → domain_condition_true (set_resource_condition r t s reason msg) d
        ≡ (if str_eq (domain_text t) (domain_text d) then s else domain_condition_true r d)
  unfolding domain_condition_true set_resource_condition
  true-set_resource r t true reason msg d = ground (
    arith,
    ops.find-set r.status.conditions
        (record {
          type = domain_text t;
          status = cond_true;
          observed_generation = r.metadata.generation;
          reason = reason;
          message = msg;
        })
        (domain_text d),
  )
  true-set_resource r t false reason msg d = ground (
    arith,
    ops.find-set r.status.conditions
        (record {
          type = domain_text t;
          status = cond_false;
          observed_generation = r.metadata.generation;
          reason = reason;
          message = msg;
        })
        (domain_text d),
  )

  true-verify_ports :
      (env : Env) (p : Pass) (revision : String) (d : DomainCondition)
      → domain_condition_true (verify_ports env p revision).1.resource d
        ≡ domain_condition_true p.resource d
  unfolding verify_ports ask judge judge_closed no_answer schedule_port_check domain_condition_true
  true-verify_ports env p revision d = ground arith

  available-report :
      (p : Pass)
      → domain_condition_true
          (report_port_not_listening (record_port_failure p)).resource
          workload_available
        ≡ domain_condition_true p.resource workload_available
  unfolding report_port_not_listening record_port_failure domain_condition_true
  available-report p =
      let (msg, q) = record_port_failure p in
      true-set_resource q.resource workload_converged false "PortNotListening" msg
        workload_available

  available-after_verdict :
      (env : Env) (s failed : Bool) (t : Duration) (p : Pass)
      → domain_condition_true (after_verdict env s ((failed, t), p)).1.resource workload_available
        ≡ domain_condition_true p.resource workload_available
  unfolding after_verdict domain_condition_true
  available-after_verdict env s false t p = refl
  available-after_verdict env true true t p = available-report p
  available-after_verdict env false true t p = available-report p

  check_ports-cases :
      (env : Env) (p : Pass) (revision : String) (s : Bool)
      → (check_ports env p revision s ≡ (0, set_port_check p none))
        ⊎ (check_ports env p revision s ≡ after_verdict env s (verify_ports env p revision))
  unfolding check_ports
  check_ports-cases env p revision s = elim (Bool-cases (port_diagnosis_allowed p.resource)) [
    | inl e ↦ inr (rw (e, check_ports))
    | inr e ↦ inl (rw (e, check_ports))
  ]

  -- Availability is no business of the port checks.
  pub available-check_ports :
      (env : Env) (p : Pass) (revision : String) (s : Bool)
      → domain_condition_true (check_ports env p revision s).1.resource workload_available
        ≡ domain_condition_true p.resource workload_available
  unfolding domain_condition_true
  available-check_ports env p revision s = elim (check_ports-cases env p revision s) [
    | inl e ↦ rw e
    | inr e ↦
        ap (λ x. domain_condition_true x.1.resource workload_available) e
        ∙ available-after_verdict env s (verify_ports env p revision).0.0
            (verify_ports env p revision).0.1 (verify_ports env p revision).1
        ∙ true-verify_ports env p revision workload_available
  ]

  converged-after_verdict :
      (env : Env) (s failed : Bool) (t : Duration) (p : Pass)
      → is_some (after_verdict env s ((failed, t), p)).1.verdicts.failed ≡ false
      → domain_condition_true (after_verdict env s ((failed, t), p)).1.resource workload_converged
        ≡ domain_condition_true p.resource workload_converged
  unfolding after_verdict domain_condition_true report_port_not_listening report_failed
      record_port_failure
  converged-after_verdict env s false t p h = refl
  converged-after_verdict env true true t p h = ground (arith, h)
  converged-after_verdict env false true t p h = ground (arith, h)

  -- Nor do they touch convergence unless they report a failure.
  pub converged-check_ports :
      (env : Env) (p : Pass) (revision : String) (s : Bool)
      → is_some (check_ports env p revision s).1.verdicts.failed ≡ false
      → domain_condition_true (check_ports env p revision s).1.resource workload_converged
        ≡ domain_condition_true p.resource workload_converged
  unfolding domain_condition_true
  converged-check_ports env p revision s h = elim (check_ports-cases env p revision s) [
    | inl e ↦ rw e
    | inr e ↦
        ap (λ x. domain_condition_true x.1.resource workload_converged) e
        ∙ converged-after_verdict env s (verify_ports env p revision).0.0
            (verify_ports env p revision).0.1 (verify_ports env p revision).1
            (sym (ap (λ x. is_some x.1.verdicts.failed) e) ∙ h)
        ∙ true-verify_ports env p revision workload_converged
  ]

  not_ready-after_verdict :
      (env : Env) (s failed : Bool) (t : Duration) (p : Pass)
      → (after_verdict env s ((failed, t), p)).1.verdicts.not_ready ≡ p.verdicts.not_ready
  unfolding after_verdict report_port_not_listening report_failed record_port_failure
  not_ready-after_verdict env s false t p = refl
  not_ready-after_verdict env true true t p = refl
  not_ready-after_verdict env false true t p = refl

  -- They report no gate.
  pub not_ready-check_ports :
      (env : Env) (p : Pass) (revision : String) (s : Bool)
      → (check_ports env p revision s).1.verdicts.not_ready ≡ p.verdicts.not_ready
  not_ready-check_ports env p revision s = elim (check_ports-cases env p revision s) [
    | inl e ↦ ap (λ x. x.1.verdicts.not_ready) e
    | inr e ↦
        ap (λ x. x.1.verdicts.not_ready) e
        ∙ not_ready-after_verdict env s (verify_ports env p revision).0.0
            (verify_ports env p revision).0.1 (verify_ports env p revision).1
        ∙ ap (λ w. w.not_ready) (verdicts-verify_ports env p revision)
  ]
