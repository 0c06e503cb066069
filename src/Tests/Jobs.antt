-- ===== src/Tests/Jobs.antt =====
-- A CronJob with two completed runs, and a pass over each kind of workload with pods.
use cluster_agent.Prelude.{◌≡◌, refl, true, false, none, some, [], ◌∷◌, ok}
use cluster_agent.Api.Meta.Listed.{listed}
use cluster_agent.Workload.Readiness.{Pass}
use cluster_agent.Workload.StatefulSet.{PodEval, SetCalls, reconcile_stateful_set}
use cluster_agent.Workload.Jobs.{
  Run, CronJob, JobCalls, latest_completed_child_job, reconcile_job, reconcile_cron_job,
}
use cluster_agent.Workload.Jobs.Explained.{IsExplained, workloads-AreExplained}
use cluster_agent.Workload.Jobs.Latest.{IsOwn, NoneLater, best, latest_completed_child_job_lem}
use cluster_agent.Tests.Samples.{web, no_verdicts}

abbrev first_run : Run
first_run = record {
  name = "report-1";
  annotations = [];
  controller_uid = some "c-1";
  succeeded = 0;
  completion_time = some 40;
  conditions = record { type = "Failed"; is_true = true; message = "backoff limit" } ∷ [];
}

abbrev second_run : Run
second_run = record first_run {
  name = "report-2";
  succeeded = 1;
  completion_time = some 70;
  conditions = [];
}

abbrev report : CronJob
report = record { uid = "c-1"; last_schedule_time = some 60 }

latest_is_second :
    latest_completed_child_job report (ok (first_run ∷ second_run ∷ [])) ≡ some second_run
unfolding latest_completed_child_job
latest_is_second = refl

latest_completed_child_job_lem_example :
    IsOwn report (latest_completed_child_job report (ok (first_run ∷ second_run ∷ [])))
    × NoneLater report
        (first_run ∷ second_run ∷ [])
        (best (latest_completed_child_job report (ok (first_run ∷ second_run ∷ []))))
latest_completed_child_job_lem_example =
    latest_completed_child_job_lem report (first_run ∷ second_run ∷ [])

abbrev job_calls : JobCalls
job_calls = record {
  get_job = λ r. ok (some first_run);
  apply_job = λ r. ok (some first_run);
  delete_job = λ job. none;
  apply_cron_job = λ r. ok (some report);
  list_jobs = λ r. ok (first_run ∷ second_run ∷ []);
}

abbrev set_calls : SetCalls
set_calls = record {
  get_mounts = λ r. none;
  get_image = λ r. none;
  build_probes = λ r. none;
  requires_restart = λ r. false;
  create_or_update = λ r. ok (record {
    generation = 2;
    observed_generation = 2;
    current_revision = "web-1";
    update_revision = "web-2";
    replicas = 1;
    ready_replicas = 0;
    updated_replicas = 0;
    available_replicas = 0;
  });
}

abbrev pod_eval : PodEval
pod_eval = record {
  env = record { now = 100; configured_grace = 0; pod_ip = none };
  list_pods = λ r. ok [];
  sanitize = λ t. t;
}

abbrev web_pass : Pass
web_pass = record { resource = web; verdicts = no_verdicts; verifier = none }

workloads-AreExplained_example :
    IsExplained (reconcile_stateful_set ⦃ops = listed⦄ set_calls pod_eval web_pass)
    × IsExplained (reconcile_job ⦃ops = listed⦄ job_calls pod_eval web_pass)
    × IsExplained (reconcile_cron_job ⦃ops = listed⦄ job_calls pod_eval web_pass)
workloads-AreExplained_example =
    workloads-AreExplained ⦃ops = listed⦄ set_calls job_calls pod_eval web_pass
