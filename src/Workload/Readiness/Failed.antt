-- ===== src/Workload/Readiness/Failed.antt =====
-- What a failed verdict on ports rests on.
use cluster_agent.Prelude.{
  ◌+◌, ◌<◌, ◌≡◌, String, sym, ap, ◌∙◌, Bool, true, false, Option, some, none, arith, eq_iff, inl,
  inr, is_empty, is_some, length, leb, Option-cases, Bool-cases,
}
use cluster_agent.Api.Meta.{ConditionOps, Time, Duration}
use cluster_agent.Api.StackResource.{PortCheckStatus}
use cluster_agent.Controller.Verdict.{report_failed}
use cluster_agent.StackResource.Conditions.{set_resource_condition}
use cluster_agent.PortCheck.Dialer.{DialResult}
use cluster_agent.PortCheck.Dialer.Closed.{all_open_iff}
use cluster_agent.PortCheck.Verifier.{Verifier, Key, get}
use cluster_agent.Workload.Readiness.{
  Env, Pass, port_check_grace, grace_clock_start, port_already_failed, failing_ports, ask,
  check_key, judge, judge_closed, no_answer, schedule_port_check, verify_ports, record_port_failure,
  report_port_not_listening, after_verdict, check_ports, port_diagnosis_allowed,
}

-- A clock that runs and was started a whole grace period ago.
abbrev pub ran_out : Env → Option Time → Bool
ran_out env none = false
ran_out env (some t) = leb (t + port_check_grace env) env.now

-- The record on status is for this revision, its clock has run for the whole grace period, and
-- some port refused.
abbrev pub IsCondemned : Env → String → Option PortCheckStatus → Type 0
IsCondemned env revision o =
    (ran_out env (grace_clock_start o revision) ≡ true) × (0 < length (failing_ports o))

grace_positive : (env : Env) → 0 < port_check_grace env
unfolding port_check_grace
grace_positive env = ground arith

already-IsCondemned :
    (env : Env) (revision : String) (o : Option PortCheckStatus)
    → port_already_failed env o revision (port_check_grace env) ≡ true
    → IsCondemned env revision o
unfolding port_already_failed
already-IsCondemned env revision o h = ground (arith, grace_positive env)

judge-IsCondemned :
    (env : Env) (p : Pass) (v : Verifier) (key : Key) (result : DialResult)
    → (judge env p v key result).0.0 ≡ true
    → IsCondemned env key.revision (judge env p v key result).1.resource.status.port_check
unfolding judge judge_closed grace_clock_start
judge-IsCondemned env p v key result h =
    ground (arith, grace_positive env, all_open_iff result, eq_iff key.revision key.revision)

no_answer-IsCondemned :
    (env : Env) (revision : String) (r : (Bool × Bool) × Pass)
    → (no_answer env revision r).0.0 ≡ true
    → IsCondemned env revision (no_answer env revision r).1.resource.status.port_check
unfolding no_answer
no_answer-IsCondemned env revision ((f, a), q) h =
    ground (arith, already-IsCondemned env revision q.resource.status.port_check)

ask-none :
    (env : Env) (p : Pass) (v : Verifier) (key : Key)
    → get v key ≡ none
    → ask env p v key ≡ no_answer env key.revision (schedule_port_check env p v key)
unfolding ask
ask-none env p v key e = rw (e, ask)

ask-some :
    (env : Env) (p : Pass) (v : Verifier) (key : Key) (r : DialResult)
    → get v key ≡ some r
    → ask env p v key ≡ judge env p v key r
unfolding ask
ask-some env p v key r e = rw (e, ask)

ask-IsCondemned :
    (env : Env) (p : Pass) (v : Verifier) (key : Key)
    → (ask env p v key).0.0 ≡ true
    → IsCondemned env key.revision (ask env p v key).1.resource.status.port_check
ask-IsCondemned env p v key h = elim (Option-cases (get v key)) [
  | inl e ↦ rw (ask-none env p v key e) (
      no_answer-IsCondemned env key.revision (schedule_port_check env p v key)
        (sym (ap (λ x. x.0.0) (ask-none env p v key e)) ∙ h))
  | inr (r, e) ↦
      rw (ask-some env p v key r e)
        (judge-IsCondemned env p v key r (sym (ap (λ x. x.0.0) (ask-some env p v key r e)) ∙ h))
]

verify_ports_asks :
    (env : Env) (p : Pass) (revision : String)
    → (verify_ports env p revision).0.0 ≡ true
    → (v : Verifier) × (verify_ports env p revision ≡ ask env p v (check_key p revision))
unfolding verify_ports
verify_ports_asks env p revision h = elim (Bool-cases (is_empty p.resource.spec.ports)) [
  | inl e ↦ ground (arith, e)
  | inr e ↦ elim (Option-cases p.verifier) [
    | inl n ↦ ground (arith, n)
    | inr (v, y) ↦ (v, ground arith)
  ]
]

verify_ports-IsCondemned :
    (env : Env) (p : Pass) (revision : String)
    → (verify_ports env p revision).0.0 ≡ true
    → IsCondemned env revision (verify_ports env p revision).1.resource.status.port_check
verify_ports-IsCondemned env p revision h =
    let (v, e) = verify_ports_asks env p revision h in
    rw e (ask-IsCondemned env p v (check_key p revision) (sym (ap (λ x. x.0.0) e) ∙ h))

module _ ⦃ops : ConditionOps⦄ where
  failed_kept :
      (p : Pass) (r : (Bool × Duration) × Pass) (env : Env) (s : Bool)
      → is_some r.1.verdicts.failed ≡ false
      → is_some (after_verdict env s r).1.verdicts.failed ≡ true
      → (r.0.0 ≡ true)
        × ((after_verdict env s r).1.resource.status.port_check ≡ r.1.resource.status.port_check)
  unfolding after_verdict report_port_not_listening record_port_failure set_resource_condition
      report_failed
  failed_kept p ((f, d), q) env s n y = ground arith

  pub verdicts-verify_ports :
      (env : Env) (p : Pass) (revision : String)
      → (verify_ports env p revision).1.verdicts ≡ p.verdicts
  unfolding verify_ports ask judge judge_closed no_answer schedule_port_check
  verdicts-verify_ports env p revision = ground arith

  check_ports_allowed :
      (env : Env) (p : Pass) (revision : String) (is_serving : Bool)
      → port_diagnosis_allowed p.resource ≡ true
      → check_ports env p revision is_serving
        ≡ after_verdict env is_serving (verify_ports env p revision)
  unfolding check_ports
  check_ports_allowed env p revision is_serving e = rw (e, check_ports)

  -- A pass over the ports reports a failure only for a crash-free resource whose record on status,
  -- after the pass, is for the revision, names a closed port and has a clock that has run for
  -- the whole grace period.
  pub check_ports_failed_means :
      (env : Env) (p : Pass) (revision : String) (is_serving : Bool)
      → is_some p.verdicts.failed ≡ false
      → is_some (check_ports env p revision is_serving).1.verdicts.failed ≡ true
      → (port_diagnosis_allowed p.resource ≡ true)
        × IsCondemned env revision
            (check_ports env p revision is_serving).1.resource.status.port_check
  unfolding check_ports
  check_ports_failed_means env p revision is_serving n y =
      elim (Bool-cases (port_diagnosis_allowed p.resource)) [
        | inl e ↦
            let same = check_ports_allowed env p revision is_serving e in
            let after = verify_ports env p revision in
            let (f, pc) =
              failed_kept p after env is_serving
                (ap (λ w. is_some w.failed) (verdicts-verify_ports env p revision) ∙ n)
                (sym (ap (λ x. is_some x.1.verdicts.failed) same) ∙ y) in
            (e, rw (same, pc) (verify_ports-IsCondemned env p revision f))
        | inr e ↦ ground (arith, e)
      ]
