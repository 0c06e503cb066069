-- ===== src/Workload/Readiness/Clock.antt =====
-- The grace clock of a revision: it starts at the first refusal and is not restarted.
use cluster_agent.Prelude.{String, ◌≡◌, true, some, none, arith, eq_iff, ◌⊎◌, is_empty}
use cluster_agent.Api.Meta.{Time}
use cluster_agent.Api.StackResource.{PortCheckStatus, success}
use cluster_agent.Workload.Readiness.{
  Env, Pass, grace_clock_start, verify_ports, ask, judge, judge_closed, no_answer,
  schedule_port_check,
}

-- After a pass over the ports of a revision whose clock runs, the clock has its first start, or
-- it was stopped: the record says Success, or there is none since there is nothing to check.
pub verify_ports_keeps_clock :
    (env : Env) (p : Pass) (revision : String) (t : Time)
    → grace_clock_start p.resource.status.port_check revision ≡ some t
    → let after = (verify_ports env p revision).1.resource.status.port_check in
      (grace_clock_start after revision ≡ some t)
      ⊎ ((after ≡ none) × ((is_empty p.resource.spec.ports ≡ true) ⊎ (p.verifier ≡ none)))
      ⊎ ((pc : PortCheckStatus) × (after ≡ some pc) × (pc.status ≡ success))
unfolding verify_ports ask judge judge_closed no_answer schedule_port_check grace_clock_start
verify_ports_keeps_clock env p revision t h = ground (arith, eq_iff revision revision)
