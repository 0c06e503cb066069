-- ===== src/Tests/Crashes.antt =====
-- A pod that loops in crashes.
use cluster_agent.Prelude.{
  String, ◌≡◌, ◌↔◌, refl, true, false, none, some, List, [], ◌∷◌, All, is_empty,
}
use cluster_agent.Workload.Crash.{
  ContainerStatus, Pod, is_crash_state, has_any_crashing_container, capture_failure_details,
}
use cluster_agent.Workload.Crash.Details.{capture_failure_details-none, IsCalm, IsCalm}

abbrev looping : ContainerStatus
looping = record {
  name = "web";
  restart_count = 7;
  waiting = some (record { reason = "CrashLoopBackOff"; message = "back-off" });
  terminated = none;
  last_terminated = some (record { exit_code = 1; reason = "Error"; message = "no database" });
}

abbrev pods : List Pod
pods =
    record { created_at = 10; init_container_statuses = []; container_statuses = looping ∷ [] } ∷ []

abbrev same_text : String → String
same_text s = s

capture_failure_details-none_example :
    (is_empty (capture_failure_details same_text "rel-1" pods) ≡ true) ↔ All IsCalm pods
capture_failure_details-none_example = capture_failure_details-none same_text "rel-1" pods

pods_have_details : is_empty (capture_failure_details same_text "rel-1" pods) ≡ false
unfolding capture_failure_details has_any_crashing_container is_crash_state
pods_have_details = refl
