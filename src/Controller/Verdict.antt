-- ===== src/Controller/Verdict.antt =====
-- internal/controller/verdict.go: the verdicts of one reconcile pass.
-- The collector that the context carries is passed along as state; a report returns the new one.
pub mod FirstWins
use cluster_agent.Prelude.{String, Option, some, none}

pub record Verdict : Type 0 where
  pub reason : String
  pub message : String

pub record VerdictCollector : Type 0 where
  pub not_ready : Option Verdict
  pub failed : Option Verdict

-- ContextWithVerdicts attaches a fresh collector.
unfoldable pub fresh_collector : VerdictCollector
fresh_collector = record { not_ready = none; failed = none }

first_wins : Option Verdict → Verdict → Option Verdict
first_wins none v = some v
first_wins (some first) v = some first

unfoldable pub report_not_ready : VerdictCollector → String → String → VerdictCollector
unfolding first_wins
report_not_ready c reason msg = record c {
  not_ready = first_wins c.not_ready (record { reason = reason; message = msg });
}

unfoldable pub report_failed : VerdictCollector → String → String → VerdictCollector
unfolding first_wins
report_failed c reason msg = record c {
  failed = first_wins c.failed (record { reason = reason; message = msg });
}
