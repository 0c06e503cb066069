-- ===== src/Tests/Ports.antt =====
-- The port checks on a service with one port.
use cluster_agent.Prelude.{
  ℕ, ◌*◌, ◌≤◌, ◌<◌, ◌≡◌, ◌↔◌, ◌⊎◌, ◌==◌, refl, Bool, true, false, none, some, is_some, is_empty, [],
  ◌∷◌, String, str_eq, length, if◌then◌else◌, arith,
}
use cluster_agent.Api.Meta.{minute, second, Time}
use cluster_agent.Api.Meta.Listed.{listed}
use cluster_agent.Controller.Verdict.{report_failed}
use cluster_agent.Api.StackResource.{PortCheckStatus, failure, success}
use cluster_agent.PortCheck.Dialer.{DialResult, all_open_ports}
use cluster_agent.PortCheck.Verifier.{
  Key, Job, Verifier, job_name, name_key, same_name, queue_depth, new_verifier, answered, refuses,
  admit, enqueue, get, finish, set_at,
}
use cluster_agent.PortCheck.Verifier.Steps.{start, next, claims}
use cluster_agent.PortCheck.Verifier.SingleFlight.{IsWf, Reachable-IsWf}
use cluster_agent.PortCheck.Verifier.Drain.{IsDrained, Reachable-drains}
use cluster_agent.PortCheck.Verifier.Ledger.{Ledger, events, Follows, IsView}
use cluster_agent.PortCheck.Verifier.Ledger.Simulation.{Reachable-IsView}
use cluster_agent.PortCheck.Verifier.Calls.{enqueue_accepts_iff, enqueue_refused, get-finish}
use cluster_agent.Workload.Readiness.{
  Env, Pass, port_retry_after, verify_ports, check_ports, grace_clock_start, port_diagnosis_allowed,
  report_port_not_listening, record_port_failure,
}
use cluster_agent.Workload.Readiness.Retry.{port_retry_after_bounds}
use cluster_agent.Workload.Readiness.Clock.{verify_ports_keeps_clock}
use cluster_agent.Workload.Readiness.Failed.{IsCondemned, check_ports_failed_means}
use cluster_agent.Tests.Samples.{web, no_verdicts}

-- Only port 8080 accepts a connection.
abbrev connect : String → ℕ → Bool
connect host p = p == 8080

abbrev web_key : Key
web_key = record { namespace = "shop"; name = "web"; revision = "4" }

abbrev web_job : Job
web_job = record { key = web_key; pod_ip = "10.0.0.7"; ports = 8080 ∷ [] }

abbrev idle : Verifier
idle = new_verifier 2

abbrev claimed : Verifier
claimed = admit idle web_job

idle_accepts : refuses idle web_job ≡ false
unfolding refuses new_verifier
idle_accepts = refl

Reachable-IsWf_example : IsWf claimed
Reachable-IsWf_example = Reachable-IsWf 2 claimed (next start (claims idle web_job idle_accepts))

enqueue_accepts_iff_example : ((enqueue idle web_job).1 ≡ true) ↔ (
    (answered idle web_key ≡ false)
    × (idle.pending (job_name web_job) ≡ false)
    × (length idle.queue < queue_depth))
enqueue_accepts_iff_example = enqueue_accepts_iff idle web_job

claimed_refuses : (enqueue claimed web_job).1 ≡ false
unfolding enqueue refuses admit new_verifier set_at
claimed_refuses = refl

enqueue_refused_example : (enqueue claimed web_job).0 ≡ claimed
enqueue_refused_example = enqueue_refused claimed web_job claimed_refuses

abbrev closed_result : DialResult
closed_result = record { ports = record { port = 8080; is_open = false } ∷ []; checked_at = 4 }

abbrev answered_verifier : Verifier
answered_verifier = finish idle [] web_job [] closed_result

get-finish_example :
    (answered_verifier.pending (job_name web_job) ≡ false)
    × (get answered_verifier web_key ≡ (
        if same_name (job_name web_job) (name_key web_key)
        then (if str_eq "4" "4" then some closed_result else none)
        else get idle web_key))
get-finish_example = get-finish idle [] [] web_job closed_result web_key

-- A port that was first seen closed ten minutes ago, with three minutes of grace.
abbrev env : Env
env = record { now = 600 * second; configured_grace = 180 * second; pod_ip = some "10.0.0.7" }

abbrev record_of : Time → PortCheckStatus
record_of t = record {
  revision = "4";
  status = failure;
  failing_port_numbers = 8080 ∷ [];
  failing_since = some t;
}

port_retry_after_bounds_example :
    (minute ≤ port_retry_after env (some (record_of 0)) (180 * second))
    × (port_retry_after env (some (record_of 0)) (180 * second) ≤ 10 * minute)
port_retry_after_bounds_example = port_retry_after_bounds env (some (record_of 0)) (180 * second)

abbrev pass : Pass
pass = record {
  resource = record web { status = record web.status { port_check = some (record_of 0) } };
  verdicts = no_verdicts;
  verifier = some answered_verifier;
}

clock_runs : grace_clock_start pass.resource.status.port_check "4" ≡ some 0
unfolding grace_clock_start
clock_runs = refl

verify_ports_keeps_clock_example :
    let after = (verify_ports env pass "4").1.resource.status.port_check in
    (grace_clock_start after "4" ≡ some 0)
    ⊎ ((after ≡ none) × ((is_empty pass.resource.spec.ports ≡ true) ⊎ (pass.verifier ≡ none)))
    ⊎ ((pc : PortCheckStatus) × (after ≡ some pc) × (pc.status ≡ success))
verify_ports_keeps_clock_example = verify_ports_keeps_clock env pass "4" 0 clock_runs

pass_fails : is_some (check_ports ⦃ops = listed⦄ env pass "4" true).1.verdicts.failed ≡ true
unfolding check_ports port_diagnosis_allowed verify_ports get finish all_open_ports
    report_port_not_listening report_failed record_port_failure
pass_fails = refl

check_ports_failed_means_example :
    (port_diagnosis_allowed pass.resource ≡ true)
    × IsCondemned env "4"
        (check_ports ⦃ops = listed⦄ env pass "4" true).1.resource.status.port_check
check_ports_failed_means_example =
    check_ports_failed_means ⦃ops = listed⦄ env pass "4" true refl pass_fails

abbrev web_dial : Job → DialResult
web_dial j = record { checked_at = 5; ports = [] }

claimed_is_open : claimed.cancelled ≡ false
unfolding admit new_verifier
claimed_is_open = refl

Reachable-drains_example : (w : Verifier) × IsDrained web_dial claimed w
Reachable-drains_example =
    Reachable-drains web_dial 2 (omega arith) claimed
      (next start (claims idle web_job idle_accepts)) claimed_is_open

Reachable-IsView_example :
    (a : Ledger) × Follows (events (next start (claims idle web_job idle_accepts))) a
    × IsView claimed a
Reachable-IsView_example =
    Reachable-IsView 2 claimed (next start (claims idle web_job idle_accepts))
