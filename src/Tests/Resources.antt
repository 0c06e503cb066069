-- ===== src/Tests/Resources.antt =====
-- The derivation of a StackResource's status on samples.
use cluster_agent.Prelude.{true, false, some, ◌≡◌, ◌↔◌, ◌⊎◌, refl, is_some}
use cluster_agent.Api.Meta.Listed.{listed}
use cluster_agent.Api.StackResource.{
  StackResource, failed, pending, runtime_crash, workload_available, workload_converged,
  summary_ready, summary_failed,
}
use cluster_agent.StackResource.Conditions.{
  domain_condition, domain_condition_true, set_resource_condition, set_summary_condition,
}
use cluster_agent.StackResource.Summary.{summarize, classify, failure_detail}
use cluster_agent.StackResource.StatusDerive.{
  derive_summary_status, derive_conditions, derive_no_verdict, derive_failed, set_phase,
  set_image_source_revision, observe,
}
use cluster_agent.StackResource.StatusDerive.Outcome.{outcome, table, derive_summary_status-table}
use cluster_agent.StackResource.StatusDerive.Agreement.{
  summary_state, all_good, derive_summary_status-summary, summary_ready_iff, summary_failed_means,
}
use cluster_agent.StackResource.StatusDerive.Again.{derive_summary_status_idem}
use cluster_agent.StackResource.StatusDerive.Written.{written}
use cluster_agent.Tests.Samples.{web, no_verdicts, failed_verdicts, no_print}

abbrev web_up : StackResource
web_up =
    set_resource_condition ⦃ops = listed⦄
      (set_resource_condition ⦃ops = listed⦄ web workload_available true "Up" "up")
      workload_converged true "Done" "done"

derive_summary_status-table_example :
    outcome ⦃ops = listed⦄ (derive_summary_status ⦃ops = listed⦄ no_print web failed_verdicts)
    ≡ table true false
        (domain_condition_true ⦃ops = listed⦄ web workload_available)
        (domain_condition_true ⦃ops = listed⦄ web workload_converged)
derive_summary_status-table_example =
    derive_summary_status-table ⦃ops = listed⦄ no_print web failed_verdicts

derive_summary_status-summary_example :
    (derive_summary_status ⦃ops = listed⦄ no_print web_up no_verdicts).status.summary
    ≡ some (summarize ⦃ops = listed⦄ web_up no_verdicts)
derive_summary_status-summary_example =
    derive_summary_status-summary ⦃ops = listed⦄ no_print web_up no_verdicts

summary_ready_iff_example :
    (summary_state (derive_summary_status ⦃ops = listed⦄ no_print web_up no_verdicts)
      ≡ some summary_ready)
    ↔ (outcome ⦃ops = listed⦄ (derive_summary_status ⦃ops = listed⦄ no_print web_up no_verdicts)
        ≡ all_good)
summary_ready_iff_example = summary_ready_iff ⦃ops = listed⦄ no_print web_up no_verdicts

web_up_ready :
    summary_state (derive_summary_status ⦃ops = listed⦄ no_print web_up no_verdicts)
    ≡ some summary_ready
unfolding derive_summary_status set_resource_condition listed summarize classify domain_condition
    derive_conditions derive_no_verdict derive_failed set_summary_condition set_phase
    set_image_source_revision observe domain_condition_true
web_up_ready = refl

web_failed :
    summary_state (derive_summary_status ⦃ops = listed⦄ no_print web failed_verdicts)
    ≡ some summary_failed
unfolding derive_summary_status set_resource_condition listed summarize classify domain_condition
    derive_conditions derive_no_verdict derive_failed set_summary_condition set_phase
    set_image_source_revision observe domain_condition_true
web_failed = refl

summary_failed_means_example :
    ((is_some failed_verdicts.failed ≡ true)
      × ((derive_summary_status ⦃ops = listed⦄ no_print web failed_verdicts).status.phase ≡ failed))
    ⊎ ((is_some (failure_detail web runtime_crash) ≡ true)
        × ((derive_summary_status ⦃ops = listed⦄ no_print web failed_verdicts).status.phase
            ≡ pending))
summary_failed_means_example =
    summary_failed_means ⦃ops = listed⦄ no_print web failed_verdicts web_failed

derive_summary_status_idem_example :
    let once = derive_summary_status ⦃ops = listed⦄ no_print web_up no_verdicts in
    let twice = derive_summary_status ⦃ops = listed⦄ no_print once no_verdicts in
    (written ⦃ops = listed⦄ twice ≡ written ⦃ops = listed⦄ once)
    × (twice.status.summary ≡ once.status.summary)
derive_summary_status_idem_example =
    derive_summary_status_idem ⦃ops = listed⦄ no_print web_up no_verdicts
