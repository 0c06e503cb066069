-- ===== src/Controller/Verdict/FirstWins.antt =====
-- A collector over a whole pass: the first report of each kind stays.
use cluster_agent.Prelude.{◌≡◌, arith, Option, some, none, List, [], ◌∷◌}
use cluster_agent.Controller.Verdict.{
  Verdict, VerdictCollector, fresh_collector, report_not_ready, report_failed,
}

-- The reports of a pass, in the order in which the sub-reconcilers make them.
pub data Report : Type 0 where
  gate failure : Verdict → Report

apply_report : VerdictCollector → Report → VerdictCollector
unfolding report_not_ready report_failed
apply_report c (gate v) = report_not_ready c v.reason v.message
apply_report c (failure v) = report_failed c v.reason v.message

pub collect : VerdictCollector → List Report → VerdictCollector
unfolding apply_report
collect c [] = c
collect c (r ∷ rs) = collect (apply_report c r) rs

-- The earliest report of each kind.
abbrev pub first_gate : List Report → Option Verdict
first_gate [] = none
first_gate (gate v ∷ rs) = some v
first_gate (failure v ∷ rs) = first_gate rs

abbrev pub first_failure : List Report → Option Verdict
first_failure [] = none
first_failure (gate v ∷ rs) = first_failure rs
first_failure (failure v ∷ rs) = some v

abbrev pub or_else : Option Verdict → Option Verdict → Option Verdict
or_else (some v) w = some v
or_else none w = w

collect_from :
    (c : VerdictCollector) (rs : List Report)
    → collect c rs ≡ record {
      not_ready = or_else c.not_ready (first_gate rs);
      failed = or_else c.failed (first_failure rs);
    }
unfolding collect
collect_from c [] = ground arith
collect_from c (gate v ∷ rs) = ground (arith, collect_from (apply_report c (gate v)) rs)
collect_from c (failure v ∷ rs) = ground (arith, collect_from (apply_report c (failure v)) rs)

-- A fresh collector ends a pass with exactly the first not-ready report and the first failed
-- report, in whatever way the two kinds are interleaved.
pub collect_first :
    (rs : List Report)
    → collect fresh_collector rs ≡ record { not_ready = first_gate rs; failed = first_failure rs }
unfolding fresh_collector
collect_first rs = collect_from fresh_collector rs
