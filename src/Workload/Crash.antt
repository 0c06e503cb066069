-- ===== src/Workload/Crash.antt =====
-- Crash details of pods: internal/controller/util.go (IsCrashState, BuildLastFailureDetail) and
-- internal/controller/stackresource/workload/failure.go (captureLastFailureDetails).
-- The pods that the lists of the API give are an argument, as is the cleaning of a termination
-- message by a regular expression. Pods of the same age may come in any order in the source.
pub mod Details
use cluster_agent.Prelude.{
  ℕ, String, Bool, true, false, not, Option, some, none, List, [], ◌∷◌, ◌++◌, map, keep, exists,
  find_first, contains, leb, ◌==◌, sort_by, ◌||◌, if◌then◌else◌,
}
use cluster_agent.Api.Meta.{Time}
use cluster_agent.Api.StackResource.{LastFailureDetail, runtime_crash}

-- corev1.ContainerStateWaiting, ContainerStateTerminated, ContainerStatus and Pod, as far as read.
pub record WaitingState : Type 0 where
  pub reason : String
  pub message : String

pub record TerminatedState : Type 0 where
  pub exit_code : ℕ
  pub reason : String
  pub message : String

pub record ContainerStatus : Type 0 where
  pub name : String
  pub restart_count : ℕ
  pub waiting : Option WaitingState
  pub terminated : Option TerminatedState
  pub last_terminated : Option TerminatedState

pub record Pod : Type 0 where
  pub created_at : Time
  pub init_container_statuses : List ContainerStatus
  pub container_statuses : List ContainerStatus

abbrev pub crash_reasons : List String
crash_reasons =
    "CrashLoopBackOff" ∷ "ImagePullBackOff" ∷ "ErrImagePull" ∷ "CreateContainerError" ∷ "OOMKilled"
    ∷ "Error" ∷ []

-- IsCrashState
unfoldable pub is_crash_state : ContainerStatus → Bool
unfolding contains
is_crash_state cs = waits_in_crash cs.waiting || ended_badly cs.terminated
  where
    waits_in_crash : Option WaitingState → Bool
    waits_in_crash none = false
    waits_in_crash (some w) = contains crash_reasons w.reason

    ended_badly : Option TerminatedState → Bool
    ended_badly none = false
    ended_badly (some t) = not (t.exit_code == 0)

-- GetTerminatedState
abbrev pub get_terminated_state : ContainerStatus → Option TerminatedState
get_terminated_state cs = elim cs.terminated [ some t ↦ some t | none ↦ cs.last_terminated ]

-- BuildLastFailureDetail, with the release that the caller adds.
unfoldable pub build_last_failure_detail :
    (String → String) → String → ContainerStatus → LastFailureDetail
build_last_failure_detail sanitize release_id cs = of_states (get_terminated_state cs) cs.waiting
  where
    detail : String → String → Option ℕ → LastFailureDetail
    detail reason message code = record {
      type = runtime_crash;
      release_id = release_id;
      container_name = cs.name;
      restart_count = cs.restart_count;
      last_termination_reason = reason;
      last_termination_message = message;
      last_termination_exit_code = code;
    }

    of_states : Option TerminatedState → Option WaitingState → LastFailureDetail
    of_states (some t) w = detail t.reason (sanitize t.message) (some t.exit_code)
    of_states none (some w) = detail w.reason (sanitize w.message) none
    of_states none none = detail "" "" none

-- hasAnyCrashingContainer
unfoldable pub has_any_crashing_container : Pod → Bool
unfolding exists
has_any_crashing_container pod =
    exists is_crash_state pod.container_statuses
    || exists is_crash_state pod.init_container_statuses

abbrev pub newest_first : Pod → Pod → Bool
newest_first a b = leb b.created_at a.created_at

abbrev pub details_of_pod : (String → String) → String → Option Pod → List LastFailureDetail
details_of_pod sanitize release_id none = []
details_of_pod sanitize release_id (some pod) =
    map (build_last_failure_detail sanitize release_id)
      (keep is_crash_state (pod.init_container_statuses ++ pod.container_statuses))

-- captureLastFailureDetails, and capturePodFailureDetails with the release of its caller: the
-- crashed containers of the newest pod that has any.
unfoldable pub capture_failure_details :
    (String → String) → String → List Pod → List LastFailureDetail
unfolding sort_by find_first keep
capture_failure_details sanitize release_id pods =
    details_of_pod sanitize release_id
      (find_first has_any_crashing_container (sort_by newest_first pods))
