-- ===== src/Workload/Readiness/Retry.antt =====
-- How long a failed port of a serving workload waits for its next dial.
use cluster_agent.Prelude.{◌+◌, ◌*◌, ◌≤◌, ◌≡◌, Option, none, some, arith, min}
use cluster_agent.Api.Meta.{Time, Duration, minute}
use cluster_agent.Api.StackResource.{PortCheckStatus}
use cluster_agent.Workload.Readiness.{Env, port_retry_after}

-- The wait is between one minute and ten minutes, whatever the status holds.
pub port_retry_after_bounds :
    (env : Env) (pc : Option PortCheckStatus) (grace : Duration)
    → (minute ≤ port_retry_after env pc grace) × (port_retry_after env pc grace ≤ 10 * minute)
unfolding port_retry_after
port_retry_after_bounds env none grace = (omega arith, omega arith)
port_retry_after_bounds env (some pc) grace = ground arith

-- Once a port has been dead for a minute past the grace period, the retry after a whole wait
-- waits twice as long, up to ten minutes.
pub port_retry_after_doubles :
    (env : Env) (pc : PortCheckStatus) (grace : Duration) (t : Time)
    → pc.failing_since ≡ some t
    → t + grace + minute ≤ env.now
    → let wait = port_retry_after env (some pc) grace in
      port_retry_after (record env { now = env.now + wait }) (some pc) grace
      ≡ min (2 * wait) (10 * minute)
unfolding port_retry_after
port_retry_after_doubles env pc grace t e h = rw (e, port_retry_after) (ground arith)
