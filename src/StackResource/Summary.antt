-- ===== src/StackResource/Summary.antt =====
-- internal/controller/stackresource/status_derive.go: the rolled-up summary of a pass.
use cluster_agent.Prelude.{
  ℕ, String, Bool, true, false, not, Option, some, none, List, [], ◌∷◌, map, length, keep, exists,
  find_first, itoa, join, concat, str_eq, ltb, ◌==◌, ◌&&◌, ◌||◌, if◌then◌else◌,
}
use cluster_agent.Api.Meta.{Condition, ConditionOps, cond_true, cond_false}
use cluster_agent.Api.StackResource.{
  StackResource, PortCheckStatusType, failure, LastFailureDetail, FailureType, runtime_crash,
  readiness_failure, other_failure, SummaryState, summary_waiting, summary_building,
  summary_deploying, summary_ready, summary_failed, StatusSummary, build_ready, dependencies_ready,
  workload_converged, workload_available, reason_port_not_listening,
}
use cluster_agent.Controller.Verdict.{Verdict, VerdictCollector}
use cluster_agent.StackResource.Conditions.{
  domain_condition, domain_condition_true, domain_condition_text,
}

-- `d.Type == failureType`
abbrev pub same_failure_type : FailureType → FailureType → Bool
same_failure_type runtime_crash runtime_crash = true
same_failure_type readiness_failure readiness_failure = true
same_failure_type (other_failure s) (other_failure t) = str_eq s t
same_failure_type _ _ = false

has_detail : LastFailureDetail → Bool
has_detail d =
    not (str_eq d.last_termination_reason "") || not (str_eq d.last_termination_message "")

-- failureDetail
unfoldable pub failure_detail : StackResource → FailureType → Option LastFailureDetail
unfolding find_first has_detail
failure_detail resource failure_type =
    find_first (λ d. same_failure_type d.type failure_type && has_detail d)
      resource.status.last_failure_details

abbrev pub is_failure : PortCheckStatusType → Bool
is_failure failure = true
is_failure _ = false

-- The spec still declares the port number.
unfoldable pub declares : StackResource → ℕ → Bool
unfolding exists
declares resource n = exists (λ p. p.number == n) resource.spec.ports

-- declaredFailingPorts
unfoldable pub declared_failing_ports : StackResource → List ℕ
unfolding keep declares
declared_failing_ports resource = elim resource.status.port_check [
  | none ↦ []
  | some pc ↦ if is_failure pc.status then keep (declares resource) pc.failing_port_numbers else []
]

-- portDialMessage
unfoldable pub port_dial_message : List ℕ → String
unfolding concat join itoa
port_dial_message ports = concat (
    (if ltb 1 (length ports) then "ports" else "port")
    ∷ " "
    ∷ join (map itoa ports) ", "
    ∷ " not accepting connections"
    ∷ [])

verdict_detail : Option Verdict → Bool × String × String → String × String
verdict_detail (some v) _ = (v.reason, v.message)
verdict_detail none (_, reason, message) = (reason, message)

abbrev deploying : String × String → SummaryState × String × String
deploying (reason, message) = (summary_deploying, reason, message)

-- The cases of `classify` with a not-ready verdict: build, dependencies, crash, default.
abbrev classify_not_ready :
    Option Condition
    → Option Condition
    → Option LastFailureDetail
    → String × String
    → SummaryState × String × String
classify_not_ready (some build) deps crash detail = (summary_building, build.reason, build.message)
classify_not_ready none (some dep) crash detail = (summary_waiting, dep.reason, dep.message)
classify_not_ready none none (some crash) detail =
    (summary_failed, crash.last_termination_reason, crash.last_termination_message)
classify_not_ready none none none detail = deploying detail

-- The cases of `classify` with no verdict: converged and available, default.
abbrev classify_no_verdict :
    Option Condition → Bool → String × String → SummaryState × String × String
classify_no_verdict (some c) true detail = (summary_ready, c.reason, c.message)
classify_no_verdict (some c) false detail = deploying detail
classify_no_verdict none available detail = deploying detail

-- The switch of `classify`, on the values computed before it.
abbrev classify_cases :
    Option Verdict
    → Option Verdict
    → SummaryState × String × String
    → SummaryState × String × String
    → SummaryState × String × String
classify_cases (some v) not_ready gated free = (summary_failed, v.reason, v.message)
classify_cases none (some v) gated free = gated
classify_cases none none gated free = free

abbrev is_deploying : SummaryState → Bool
is_deploying summary_deploying = true
is_deploying _ = false

module _ ⦃ops : ConditionOps⦄ where
  -- deployingDetail
  unfoldable pub deploying_detail : StackResource → Option Verdict → String × String
  unfolding verdict_detail port_dial_message
  deploying_detail resource v =
      let ports = declared_failing_ports resource in
      if ltb 0 (length ports)
      then (reason_port_not_listening, port_dial_message ports)
      else verdict_detail v (
          domain_condition_text resource workload_converged "WorkloadNotConverged"
            "workload has not converged")

  -- classify
  unfoldable pub classify : StackResource → VerdictCollector → SummaryState × String × String
  classify resource verdicts =
      let build_not_ready = domain_condition resource build_ready cond_false in
      let deps_not_ready = domain_condition resource dependencies_ready cond_false in
      let crash = failure_detail resource runtime_crash in
      let converged = domain_condition resource workload_converged cond_true in
      let detail = deploying_detail resource verdicts.not_ready in
      classify_cases verdicts.failed verdicts.not_ready
        (classify_not_ready build_not_ready deps_not_ready crash detail)
        (classify_no_verdict converged (domain_condition_true resource workload_available) detail)

  -- appendServingNote
  unfoldable pub append_serving_note : StackResource → String → String
  unfolding concat
  append_serving_note resource message =
      if domain_condition_true resource workload_available
      then (if str_eq message ""
          then "previous revision still serving traffic"
          else concat (message ∷ " (previous revision still serving traffic)" ∷ []))
      else message

  -- summarize
  unfoldable pub summarize : StackResource → VerdictCollector → StatusSummary
  summarize resource verdicts =
      let (state, reason, message) = classify resource verdicts in
      record {
        state = state;
        reason = reason;
        message = if is_deploying state then append_serving_note resource message else message;
        observed_generation = resource.metadata.generation;
      }
