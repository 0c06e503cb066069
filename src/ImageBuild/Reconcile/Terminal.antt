-- ===== src/ImageBuild/Reconcile/Terminal.antt =====
-- Phase and conditions of an ImageBuild agree in what a pass stores.
use cluster_agent.Prelude.{
  String, ◌∙◌, ◌≡◌, ◌≢◌, ◌↔◌, Bool, true, false, arith, str_eq, if◌then◌else◌,
}
use cluster_agent.Api.Meta.{
  ConditionOps, ConditionStatus, is_cond_true, cond_true, cond_false, is_condition_true-set,
}
use cluster_agent.Api.ImageBuild.{
  ImageBuild, ImageBuildStatus, phase_success, phase_failed, phase_cancelled, BuildStatusCondition,
  build_available, build_failed, build_cancelled, condition_text,
}
use cluster_agent.ImageBuild.Status.{
  report_image_build_status, report_image_build_complete, build_condition_true,
  image_build_in_terminal_state, mark_job_created, set_phase,
}

module _ ⦃ops : ConditionOps⦄ where
  -- The phase says exactly which terminal condition is True.
  pub record IsAgreed (b : ImageBuild) : Type 0 where
    pub success : (b.status.phase ≡ phase_success) ↔ (build_condition_true b build_available ≡ true)
    pub failure : (b.status.phase ≡ phase_failed) ↔ (build_condition_true b build_failed ≡ true)
    pub cancelled :
        (b.status.phase ≡ phase_cancelled) ↔ (build_condition_true b build_cancelled ≡ true)

  -- No terminal condition is True and the phase is none of theirs.
  pub record IsOpen (b : ImageBuild) : Type 0 where
    pub not_available : build_condition_true b build_available ≡ false
    pub not_failed : build_condition_true b build_failed ≡ false
    pub not_cancelled : build_condition_true b build_cancelled ≡ false
    pub no_success : b.status.phase ≢ phase_success
    pub no_failure : b.status.phase ≢ phase_failed
    pub no_cancel : b.status.phase ≢ phase_cancelled

  pub IsOpen-of_IsAgreed :
      (b : ImageBuild) → IsAgreed b → image_build_in_terminal_state b ≡ false → IsOpen b
  unfolding image_build_in_terminal_state
  IsOpen-of_IsAgreed b i h = record {
    not_available = ground (arith, h);
    not_failed = ground (arith, h);
    not_cancelled = ground (arith, h);
    no_success = ground (arith, h, i.success);
    no_failure = ground (arith, h, i.failure);
    no_cancel = ground (arith, h, i.cancelled);
  }

  pub IsAgreed-of_IsOpen : (b : ImageBuild) → IsOpen b → IsAgreed b
  IsAgreed-of_IsOpen b i = record {
    success = ground (arith, i.no_success, i.not_available);
    failure = ground (arith, i.no_failure, i.not_failed);
    cancelled = ground (arith, i.no_cancel, i.not_cancelled);
  }

  -- What a condition that is set says of each condition.
  abbrev set_then : Bool → Bool → Bool → Bool
  set_then same value before = if same then value else before

  condition_report :
      (print_hash : ImageBuildStatus → String) (b : ImageBuild) (c : BuildStatusCondition)
      (v : ConditionStatus) (reason : String) (d : BuildStatusCondition)
      → build_condition_true (report_image_build_status print_hash b c v reason) d
        ≡ set_then
            (str_eq (condition_text c) (condition_text d))
            (is_cond_true v)
            (build_condition_true b d)
  unfolding report_image_build_status build_condition_true
  condition_report print_hash b c v reason d =
      is_condition_true-set b.status.conditions
        (record {
          type = condition_text c;
          status = v;
          observed_generation = b.metadata.generation;
          reason = reason;
          message = reason;
        })
        (condition_text d)

  condition_complete :
      (print_hash : ImageBuildStatus → String) (b : ImageBuild) (d : BuildStatusCondition)
      → build_condition_true (report_image_build_complete print_hash b) d
        ≡ set_then (str_eq "Available" (condition_text d)) true (build_condition_true b d)
  unfolding report_image_build_complete build_condition_true
  condition_complete print_hash b d =
      is_condition_true-set b.status.conditions
        (record {
          type = "Available";
          status = cond_true;
          observed_generation = b.metadata.generation;
          reason = "BuildComplete";
          message = "Image build complete";
        })
        (condition_text d)

  condition_created :
      (b : ImageBuild) (d : BuildStatusCondition)
      → build_condition_true (mark_job_created b) d
        ≡ set_then (str_eq "BuildJobCreated" (condition_text d)) true (build_condition_true b d)
  unfolding mark_job_created build_condition_true
  condition_created b d =
      is_condition_true-set b.status.conditions
        (record {
          type = "BuildJobCreated";
          status = cond_true;
          observed_generation = 0;
          reason = "BuildJobCreated";
          message = "BuildJobCreated";
        })
        (condition_text d)

  -- Reports that leave a build open, and reports that close it.
  pub waiting-IsOpen :
      (print_hash : ImageBuildStatus → String) (b : ImageBuild) (reason : String)
      → IsOpen b
      → IsOpen (report_image_build_status print_hash b build_available cond_false reason)
  unfolding report_image_build_status
  waiting-IsOpen print_hash b reason i =
      let law = condition_report print_hash b build_available cond_false reason in
      record {
        not_available = law build_available;
        not_failed = law build_failed ∙ i.not_failed;
        not_cancelled = law build_cancelled ∙ i.not_cancelled;
        no_success = i.no_success;
        no_failure = i.no_failure;
        no_cancel = i.no_cancel;
      }

  pub created-IsOpen : (b : ImageBuild) → IsOpen b → IsOpen (mark_job_created b)
  unfolding mark_job_created
  created-IsOpen b i = record {
    not_available = condition_created b build_available ∙ i.not_available;
    not_failed = condition_created b build_failed ∙ i.not_failed;
    not_cancelled = condition_created b build_cancelled ∙ i.not_cancelled;
    no_success = i.no_success;
    no_failure = i.no_failure;
    no_cancel = i.no_cancel;
  }

  pub completed-IsAgreed :
      (print_hash : ImageBuildStatus → String) (b : ImageBuild)
      → IsOpen b
      → IsAgreed (report_image_build_complete print_hash b)
  unfolding report_image_build_complete
  completed-IsAgreed print_hash b i =
      let law = condition_complete print_hash b in
      record {
        success = ground (arith, law build_available);
        failure = ground (arith, law build_failed, i.not_failed);
        cancelled = ground (arith, law build_cancelled, i.not_cancelled);
      }

  pub failed-IsAgreed :
      (print_hash : ImageBuildStatus → String) (b : ImageBuild) (reason : String)
      → IsOpen b
      → IsAgreed (
          set_phase
            (report_image_build_status print_hash b build_failed cond_true reason)
            phase_failed)
  unfolding report_image_build_status build_condition_true
  failed-IsAgreed print_hash b reason i =
      let law = condition_report print_hash b build_failed cond_true reason in
      record {
        success = ground (arith, law build_available, i.not_available);
        failure = ground (arith, law build_failed);
        cancelled = ground (arith, law build_cancelled, i.not_cancelled);
      }

  pub cancelled-IsAgreed :
      (print_hash : ImageBuildStatus → String) (b : ImageBuild) (reason : String)
      → IsOpen b
      → IsAgreed (
          report_image_build_status print_hash
            (set_phase b phase_cancelled)
            build_cancelled
            cond_true
            reason)
  unfolding report_image_build_status build_condition_true
  cancelled-IsAgreed print_hash b reason i =
      let law =
        condition_report print_hash (set_phase b phase_cancelled) build_cancelled cond_true
          reason in
      record {
        success = ground (arith, law build_available, i.not_available);
        failure = ground (arith, law build_failed, i.not_failed);
        cancelled = ground (arith, law build_cancelled);
      }
