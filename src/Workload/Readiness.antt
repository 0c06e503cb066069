-- ===== src/Workload/Readiness.antt =====
-- internal/controller/stackresource/workload/readiness.go: the verdict on declared ports.
-- Times are nanoseconds, and `time.Since` stops at 0: it is only compared with, and reduced by,
-- durations that are not negative. The configured grace is not negative. The pod to dial, which
-- the cluster's lists give, is an argument.
pub mod Retry
pub mod Clock
pub mod Failed
use cluster_agent.Prelude.{
  ℕ, String, Bool, true, false, not, Option, some, none, List, [], ◌∷◌, map, exists, is_empty,
  is_some, length, str_eq, leb, ltb, ◌==◌, ◌-◌, ◌*◌, ◌&&◌, ◌||◌, min, max, if◌then◌else◌,
}
use cluster_agent.Api.Meta.{ConditionOps, Time, Duration, second, minute}
use cluster_agent.Api.StackResource.{
  StackResource, Port, PortCheckStatus, LastFailureDetail, FailureType, readiness_failure, success,
  failure, reason_port_not_listening, workload_converged,
}
use cluster_agent.Controller.Verdict.{VerdictCollector, report_failed}
use cluster_agent.StackResource.Conditions.{set_resource_condition}
use cluster_agent.PortCheck.Dialer.{DialResult, all_open, closed_ports, message}
use cluster_agent.PortCheck.Verifier.{Verifier, Key, get, enqueue, is_pending, forget}

abbrev pub default_port_check_grace : Duration
default_port_check_grace = 3 * minute

abbrev pub port_check_requeue_interval : Duration
port_check_requeue_interval = 30 * second

abbrev pub min_port_retry_interval : Duration
min_port_retry_interval = 1 * minute

abbrev pub max_port_retry_interval : Duration
max_port_retry_interval = 10 * minute

-- What a pass reads: the clock, the configured grace, and the pod that it would dial.
pub record Env : Type 0 where
  pub now : Time
  pub configured_grace : Duration
  pub pod_ip : Option String

-- What a pass changes. The verifier is none where the reconciler has none.
pub record Pass : Type 0 where
  pub resource : StackResource
  pub verdicts : VerdictCollector
  pub verifier : Option Verifier

abbrev pub declared_port_numbers : StackResource → List ℕ
declared_port_numbers resource = map (λ (p : Port). p.number) resource.spec.ports

-- portCheckGrace
unfoldable pub port_check_grace : Env → Duration
port_check_grace env =
    if env.configured_grace == 0 then default_port_check_grace else env.configured_grace

-- `time.Since(t)`
abbrev pub since : Env → Time → Duration
since env t = env.now - t

-- graceClockStart
unfoldable pub grace_clock_start : Option PortCheckStatus → String → Option Time
grace_clock_start none revision = none
grace_clock_start (some pc) revision =
    if not (str_eq pc.revision revision) then none else pc.failing_since

abbrev pub or_now : Env → Option Time → Time
or_now env none = env.now
or_now env (some started) = started

-- portRetryAfter
unfoldable pub port_retry_after : Env → Option PortCheckStatus → Duration → Duration
port_retry_after env none grace = min_port_retry_interval
port_retry_after env (some pc) grace = elim pc.failing_since [
  | none ↦ min_port_retry_interval
  | some t ↦ min (max (since env t - grace) min_port_retry_interval) max_port_retry_interval
]

abbrev pub failing_ports : Option PortCheckStatus → List ℕ
failing_ports none = []
failing_ports (some pc) = pc.failing_port_numbers

-- portAlreadyFailed
unfoldable pub port_already_failed : Env → Option PortCheckStatus → String → Duration → Bool
unfolding grace_clock_start
port_already_failed env pc revision grace = elim (grace_clock_start pc revision) [
  | none ↦ false
  | some t ↦ ltb 0 (length (failing_ports pc)) && leb grace (since env t)
]

-- portDiagnosisAllowed
unfoldable pub port_diagnosis_allowed : StackResource → Bool
port_diagnosis_allowed resource = allowed resource.status.last_failure_details
  where
    allowed : List LastFailureDetail → Bool
    allowed [] = true
    allowed (d ∷ ds) = is_readiness d.type
      where
        is_readiness : FailureType → Bool
        is_readiness readiness_failure = true
        is_readiness _ = false

abbrev pub set_port_check : Pass → Option PortCheckStatus → Pass
set_port_check p pc = record p {
  resource = record p.resource { status = record p.resource.status { port_check = pc } };
}

abbrev pub set_details : Pass → List LastFailureDetail → Pass
set_details p ds = record p {
  resource = record p.resource { status = record p.resource.status { last_failure_details = ds } };
}

-- schedulePortCheck: whether a pod was found, and whether an answer is coming.
unfoldable pub schedule_port_check : Env → Pass → Verifier → Key → (Bool × Bool) × Pass
schedule_port_check env p v key = scheduled env.pod_ip
  where
    scheduled : Option String → (Bool × Bool) × Pass
    scheduled none = ((false, false), p)
    scheduled (some ip) =
        let (w, admitted) =
          enqueue v (record { key = key; pod_ip = ip; ports = declared_port_numbers p.resource }) in
        ((true, admitted || is_pending w key), record p { verifier = some w })

-- The answer that says a port is closed, and the clock that it starts or keeps.
unfoldable pub judge_closed : Env → Pass → Verifier → Key → DialResult → (Bool × Duration) × Pass
unfolding grace_clock_start port_check_grace
judge_closed env p v key result =
    let t = or_now env (grace_clock_start p.resource.status.port_check key.revision) in
    let judged =
      record (set_port_check p (
        some (record {
          revision = key.revision;
          status = failure;
          failing_port_numbers = closed_ports result;
          failing_since = some t;
        }))) { verifier = some (forget v key) } in
    if ltb (since env t) (port_check_grace env)
    then ((false, port_check_requeue_interval), judged)
    else ((true, 0), judged)

-- verifyPorts without an answer: the verdict on status is repeated.
unfoldable pub no_answer : Env → String → (Bool × Bool) × Pass → (Bool × Duration) × Pass
unfolding port_already_failed port_check_grace
no_answer env revision ((pod_found, accepted), p) =
    let already =
      port_already_failed env p.resource.status.port_check revision (port_check_grace env) in
    if accepted || pod_found then ((already, port_check_requeue_interval), p) else ((already, 0), p)

-- verifyPorts with an answer.
unfoldable pub judge : Env → Pass → Verifier → Key → DialResult → (Bool × Duration) × Pass
unfolding judge_closed
judge env p v key result =
    if all_open result
    then (
      (false, 0),
      set_port_check p (
          some (record {
            revision = key.revision;
            status = success;
            failing_port_numbers = [];
            failing_since = none;
          })),
    )
    else judge_closed env p v key result

-- verifyPorts with a verifier.
unfoldable pub ask : Env → Pass → Verifier → Key → (Bool × Duration) × Pass
unfolding judge schedule_port_check no_answer
ask env p v key = elim (get v key) [
  | none ↦ no_answer env key.revision (schedule_port_check env p v key)
  | some result ↦ judge env p v key result
]

abbrev pub check_key : Pass → String → Key
check_key p revision = record {
  namespace = p.resource.metadata.namespace;
  name = p.resource.metadata.name;
  revision = revision;
}

-- verifyPorts
unfoldable pub verify_ports : Env → Pass → String → (Bool × Duration) × Pass
unfolding ask
verify_ports env p revision =
    if is_empty p.resource.spec.ports
    then ((false, 0), set_port_check p none)
    else elim p.verifier [
      | none ↦ ((false, 0), set_port_check p none)
      | some v ↦ ask env p v (check_key p revision)
    ]

-- recordPortFailure: the detail that is put on status, and its message.
unfoldable pub record_port_failure : Pass → String × Pass
unfolding exists
record_port_failure p =
    let failing = failing_ports p.resource.status.port_check in
    let msg = message (record {
      ports =
          map
            (λ (d : Port). record {
              port = d.number;
              is_open = not (exists (λ n. n == d.number) failing);
            })
            p.resource.spec.ports;
      checked_at = 0;
    }) in
    (
      msg,
      set_details p (
          record {
            type = readiness_failure;
            release_id = "";
            container_name = p.resource.metadata.name;
            restart_count = 0;
            last_termination_reason = reason_port_not_listening;
            last_termination_message = msg;
            last_termination_exit_code = none;
          }
          ∷ []),
    )

module _ ⦃ops : ConditionOps⦄ where
  -- reportPortNotListening
  unfoldable pub report_port_not_listening : String × Pass → Pass
  report_port_not_listening (msg, p) = record p {
    resource =
        set_resource_condition p.resource workload_converged false reason_port_not_listening msg;
    verdicts = report_failed p.verdicts reason_port_not_listening msg;
  }

  -- The end of checkPorts, after the verdict.
  unfoldable pub after_verdict : Env → Bool → (Bool × Duration) × Pass → Duration × Pass
  unfolding port_check_grace
  after_verdict env is_serving ((failed, requeue_after), p) =
      let reported = report_port_not_listening (record_port_failure p) in
      if not failed
      then (requeue_after, set_details p [])
      else if is_serving
      then (
        if ltb 0 requeue_after
            then requeue_after
            else port_retry_after env reported.resource.status.port_check (port_check_grace env),
        reported,
      )
      else (0, reported)

  -- checkPorts
  unfoldable pub check_ports : Env → Pass → String → Bool → Duration × Pass
  unfolding after_verdict
  check_ports env p revision is_serving =
      if not (port_diagnosis_allowed p.resource)
      then (0, set_port_check p none)
      else after_verdict env is_serving (verify_ports env p revision)
