-- ===== src/Stack/Aggregate/Conditions.antt =====
-- The six conditions of a Stack as a client reads them back, and how they fit together.
use cluster_agent.Prelude.{
  refl, is_some, ℕ, String, ◌≡◌, Bool, true, false, Option, some, none, List, arith, length, str_eq,
  ◌==◌, ltb, ◌&&◌, ◌↔◌, if◌then◌else◌,
}
use cluster_agent.Api.Meta.{
  Condition, ConditionOps, ConditionStatus, cond_true, cond_false, status_of_bool, Time,
}
use cluster_agent.Api.Stack.{
  Stack, StackPhase, StackCondition, StackConvergenceRecord, stack_condition_text, stack_ready,
  stack_failed, stack_progressing, stack_degraded, available, converged, resources_ready, stalled,
  degraded, progressing,
}
use cluster_agent.Api.StackResource.{StackResource}
use cluster_agent.Stack.Children.{ChildStats, collect_child_stats, serving, all_desired_serving}
use cluster_agent.Stack.Children.Rollup.{all_desired_serving-serving}
use cluster_agent.Stack.State.{StackState, derive_state}
use cluster_agent.Stack.Aggregate.{
  set_stack_condition, write_condition, write_conditions, aggregate_stack_status, choose_phase,
  stamp_last_converged,
}
use cluster_agent.Stack.Aggregate.Phases.{is_managed, release, root_revision}

-- All six conditions, read at one generation.
pub record Readout : Type 0 where
  pub available_read : Option ConditionStatus
  pub converged_read : Option ConditionStatus
  pub resources_ready_read : Option ConditionStatus
  pub stalled_read : Option ConditionStatus
  pub degraded_read : Option ConditionStatus
  pub progressing_read : Option ConditionStatus

module _ ⦃ops : ConditionOps⦄ where
  -- The status of a condition that describes the given generation.
  unfoldable pub read_stack : ℕ → List Condition → StackCondition → Option ConditionStatus
  read_stack generation cs t = elim (ops.find_condition cs (stack_condition_text t)) [
    | none ↦ none
    | some c ↦ if c.observed_generation == generation then some c.status else none
  ]

  read-write :
      (generation : ℕ) (t u : StackCondition) (b : Bool) (yes no : String × String)
      (cs : List Condition)
      → read_stack generation (write_condition generation t b yes no cs) u ≡ (
          if str_eq (stack_condition_text t) (stack_condition_text u)
          then some (status_of_bool b)
          else read_stack generation cs u)
  unfolding read_stack write_condition set_stack_condition
  read-write generation t u true (yr, ym) (nr, nm) cs = ground (
    arith,
    ops.find-set cs
        (record {
          type = stack_condition_text t;
          status = cond_true;
          observed_generation = generation;
          reason = yr;
          message = ym;
        })
        (stack_condition_text u),
  )
  read-write generation t u false (yr, ym) (nr, nm) cs = ground (
    arith,
    ops.find-set cs
        (record {
          type = stack_condition_text t;
          status = cond_false;
          observed_generation = generation;
          reason = nr;
          message = nm;
        })
        (stack_condition_text u),
  )

  abbrev pub readout : ℕ → List Condition → Readout
  readout generation cs = record {
    available_read = read_stack generation cs available;
    converged_read = read_stack generation cs converged;
    resources_ready_read = read_stack generation cs resources_ready;
    stalled_read = read_stack generation cs stalled;
    degraded_read = read_stack generation cs degraded;
    progressing_read = read_stack generation cs progressing;
  }

  abbrev status_now : Bool → Option ConditionStatus
  status_now b = some (status_of_bool b)

  -- Every condition is written, at the current generation, with its Boolean, whatever the
  -- conditions were before.
  write_conditions-readout :
      (generation : ℕ) (state : StackState) (done serves conv : Bool) (cs : List Condition)
      → readout generation (write_conditions generation state done serves conv cs) ≡ record {
        available_read = status_now serves;
        converged_read = status_now conv;
        resources_ready_read = status_now done;
        stalled_read = status_now state.stalled;
        degraded_read = status_now state.degraded;
        progressing_read = status_now state.progressing;
      }
  unfolding write_conditions
  write_conditions-readout generation state done serves conv cs = simp read-write

-- Every condition is there and describes the generation of the readout.
pub record IsComplete (r : Readout) : Type 0 where
  pub available_current : is_some r.available_read ≡ true
  pub converged_current : is_some r.converged_read ≡ true
  pub resources_ready_current : is_some r.resources_ready_read ≡ true
  pub stalled_current : is_some r.stalled_read ≡ true
  pub degraded_current : is_some r.degraded_read ≡ true
  pub progressing_current : is_some r.progressing_read ≡ true

-- How the conditions fit together, and what the phase says of them.
pub record Coherent (phase : StackPhase) (r : Readout) : Type 0 where
  pub complete : IsComplete r
  pub stalled_not_progressing :
      r.stalled_read ≡ some cond_true → r.progressing_read ≡ some cond_false
  pub converged_is_ready :
      r.converged_read ≡ some cond_true → r.resources_ready_read ≡ some cond_true
  pub degraded_serves :
      r.degraded_read ≡ some cond_true
      → (r.available_read ≡ some cond_true) × (r.resources_ready_read ≡ some cond_false)
  pub ready_iff :
      (phase ≡ stack_ready)
      ↔ ((r.converged_read ≡ some cond_true) × (r.stalled_read ≡ some cond_false))
  pub failed_iff : (phase ≡ stack_failed) ↔ (r.stalled_read ≡ some cond_true)
  pub progressing_iff : (phase ≡ stack_progressing) ↔ (r.progressing_read ≡ some cond_true)
  pub degraded_iff :
      (phase ≡ stack_degraded)
      ↔ ((r.degraded_read ≡ some cond_true) × (r.progressing_read ≡ some cond_false))

module _ (stats : ChildStats) (done managed serves : Bool) (rev : String)
    (lc : Option StackConvergenceRecord)
    (agree : all_desired_serving stats ≡ (serves && ltb 0 stats.desired_count)) where
  abbrev state : StackState
  state = derive_state stats done managed rev lc

  abbrev conv : Bool
  conv = done && length stats.orphans == 0

  Coherent-from : Coherent (choose_phase state conv) (record {
    available_read = some (status_of_bool serves);
    converged_read = some (status_of_bool conv);
    resources_ready_read = some (status_of_bool done);
    stalled_read = some (status_of_bool state.stalled);
    degraded_read = some (status_of_bool state.degraded);
    progressing_read = some (status_of_bool state.progressing);
  })
  unfolding choose_phase derive_state
  Coherent-from = record {
    complete = record {
      available_current = refl;
      converged_current = refl;
      resources_ready_current = refl;
      stalled_current = refl;
      degraded_current = refl;
      progressing_current = refl;
    };
    stalled_not_progressing = ground arith;
    converged_is_ready = ground arith;
    degraded_serves = ground (arith, agree);
    ready_iff = ground arith;
    failed_iff = ground arith;
    progressing_iff = ground arith;
    degraded_iff = ground arith;
  }

module _ ⦃ops : ConditionOps⦄ (now : Time) (stack : Stack) (children : List StackResource) where
  -- After one aggregation all six conditions are there, describe the current generation and fit
  -- together with each other and with the phase: Stalled excludes Progressing, Converged implies
  -- ResourcesReady, Degraded implies Available and not ResourcesReady, and the phases Ready,
  -- Failed, Progressing and Degraded are read off the conditions.
  pub aggregate-Coherent :
      let s = aggregate_stack_status now stack children in
      Coherent s.phase (readout stack.metadata.generation s.conditions)
  unfolding aggregate_stack_status
  aggregate-Coherent =
      let rev = root_revision now stack children in
      let managed = is_managed now stack children in
      let rel = release now stack children in
      let stats = collect_child_stats stack children managed rel in
      let done = stats.converged_count == stats.desired_count in
      let conv = done && length stats.orphans == 0 in
      let lc = stamp_last_converged (conv && managed) now rev rel stack.status.last_converged in
      let state = derive_state stats done managed rev lc in
      rw
        (write_conditions-readout stack.metadata.generation state done (serving stats) conv
          stack.status.conditions)
        (Coherent-from stats done managed (serving stats) rev lc
          (all_desired_serving-serving stack children managed rel))
