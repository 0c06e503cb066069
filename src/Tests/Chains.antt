-- ===== src/Tests/Chains.antt =====
-- A pass over two sub-reconcilers and its verdicts.
use cluster_agent.Prelude.{ℕ, ◌≡◌, refl, inr, none, some, Option, [], ◌∷◌, ok, ◌+◌, ◌*◌}
use cluster_agent.Api.Meta.{Duration, second}
use cluster_agent.Controller.Verdict.{Verdict, fresh_collector}
use cluster_agent.Controller.Verdict.FirstWins.{gate, failure, collect, collect_first}
use cluster_agent.Controller.SubReconciler.{Sub, run_chain, requeue_after}
use cluster_agent.Controller.SubReconciler.Chain.{passing, run_chain_cut}
use cluster_agent.Tests.Samples.{port_verdict}

abbrev dns_verdict : Verdict
dns_verdict = record { reason = "DnsNotReady"; message = "no record yet" }

collect_first_example :
    collect fresh_collector (gate dns_verdict ∷ failure port_verdict ∷ gate port_verdict ∷ [])
    ≡ record { not_ready = some dns_verdict; failed = some port_verdict }
collect_first_example =
    collect_first (gate dns_verdict ∷ failure port_verdict ∷ gate port_verdict ∷ [])

-- Sub-reconcilers over a counter of their runs.
abbrev waits : Sub ℕ
waits n = (ok (requeue_after (10 * second)), n + 1)

abbrev counts : Option Duration × (ℕ → ℕ)
counts = (some (30 * second), λ n. n + 1)

run_chain_cut_example :
    run_chain (passing counts ∷ waits ∷ passing counts ∷ []) none 0
    ≡ run_chain (passing counts ∷ waits ∷ []) none 0
run_chain_cut_example =
    run_chain_cut (passing counts ∷ []) (passing counts ∷ []) waits none 0 (λ t. inr (inr refl))
