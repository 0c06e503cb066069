-- ===== src/Tests/Samples.antt =====
-- Sample objects: a service with one port, and a stack of it.
use cluster_agent.Prelude.{String, true, none, some, [], ◌∷◌}
use cluster_agent.Api.Stack.{Stack, StackStatus, stack_phase_unset}
use cluster_agent.Api.StackResource.{StackResource, Spec, Status, Port, service, phase_unset}
use cluster_agent.Controller.Verdict.{Verdict, VerdictCollector}

abbrev pub web_port : Port
web_port = record {
  name = "http";
  number = 8080;
  protocol = "TCP";
  expose_to_public = true;
  fqdn = "shop.example.org";
  tls = true;
  tls_secret_ref = "";
}

abbrev pub web_spec : Spec
web_spec = record {
  workload_type = service;
  schedule = "";
  replicas = some 2;
  build_spec = none;
  image_spec = none;
  init = none;
  command = [];
  args = [];
  environment_variables = [];
  volume_mounts = [];
  depends_on = [];
  ports = web_port ∷ [];
  health_checks = none;
  pre_deploy_command = [];
  termination_grace_period_seconds = none;
  hardened_security_defaults = none;
  restart_request = none;
}

abbrev pub empty_status : Status
empty_status = record {
  observed_generation = 0;
  observed_revision = "";
  last_converged = none;
  conditions = [];
  phase = phase_unset;
  image_source_revision = "";
  external_address = [];
  internal_address = none;
  last_restart_request_processed_at = none;
  current_build = none;
  status_hash = "";
  last_failure_details = [];
  last_failure_deployment_revision = "";
  replicas = 0;
  available_replicas = 0;
  updated_replicas = 0;
  last_run_time = none;
  last_run_succeeded = none;
  port_check = none;
  referenced_tls_secret = none;
  cert_manager_tls = none;
  summary = none;
}

abbrev pub web : StackResource
web = record {
  metadata = record {
    name = "web";
    namespace = "shop";
    uid = "u1";
    generation = 3;
    labels = [];
    annotations = ("core.stackdome.io/revision", "r7") ∷ [];
  };
  spec = web_spec;
  status = empty_status;
}

abbrev pub shop_status : StackStatus
shop_status = record {
  observed_generation = 0;
  target_revision = "";
  last_converged = none;
  phase = stack_phase_unset;
  conditions = [];
  resources = [];
  orphaned_resources = [];
  status_hash = "";
}

abbrev pub shop : Stack
shop = record {
  metadata = record {
    name = "shop";
    namespace = "shop";
    uid = "u0";
    generation = 2;
    labels = [];
    annotations = ("core.stackdome.io/revision", "r7") ∷ [];
  };
  spec = record { resource_names = "web" ∷ [] };
  status = shop_status;
}

abbrev pub no_verdicts : VerdictCollector
no_verdicts = record { not_ready = none; failed = none }

abbrev pub port_verdict : Verdict
port_verdict = record { reason = "PortNotListening"; message = "nothing listens on 8080" }

abbrev pub failed_verdicts : VerdictCollector
failed_verdicts = record { not_ready = none; failed = some port_verdict }

abbrev pub no_print : Status → String
no_print s = "hash"
