-- ===== src/Controller/SubReconciler.antt =====
-- internal/controller/subreconciler.go, and the chain that internal/controller/stackresource
-- (stackresource_controller.go, reconcile) runs over the sub-reconcilers.
pub mod Chain
use cluster_agent.Prelude.{
  ℕ, String, Bool, true, false, not, Option, some, none, List, [], ◌∷◌, Result, ok, err, is_some,
  ◌&&◌, if◌then◌else◌,
}
use cluster_agent.Api.Meta.{Duration}

pub record SubReconcilerResult : Type 0 where
  pub result_nil : Bool
  pub result_stop : Bool
  pub result_requeue : Bool
  pub result_requeue_after : Option Duration
  pub deferred_requeue_after : Option Duration

abbrev zero_result : SubReconcilerResult
zero_result = record {
  result_nil = false;
  result_stop = false;
  result_requeue = false;
  result_requeue_after = none;
  deferred_requeue_after = none;
}

abbrev pub result_continue : SubReconcilerResult
result_continue = record zero_result { result_nil = true }

abbrev pub result_stop : SubReconcilerResult
result_stop = record zero_result { result_stop = true }

abbrev pub result_requeue : SubReconcilerResult
result_requeue = record zero_result { result_requeue = true }

abbrev pub requeue_after : Duration → SubReconcilerResult
requeue_after t = record zero_result { result_requeue_after = some t }

abbrev pub deferred_requeue : Duration → SubReconcilerResult
deferred_requeue t = record zero_result { deferred_requeue_after = some t }

-- `r == resultStop` and `r == resultRequeue` compare every field.
abbrev pub is_result_stop : SubReconcilerResult → Bool
is_result_stop r =
    r.result_stop
    && not r.result_nil
    && not r.result_requeue
    && not (is_some r.result_requeue_after)
    && not (is_some r.deferred_requeue_after)

abbrev pub is_result_requeue : SubReconcilerResult → Bool
is_result_requeue r =
    r.result_requeue
    && not r.result_nil
    && not r.result_stop
    && not (is_some r.result_requeue_after)
    && not (is_some r.deferred_requeue_after)

-- ctrl.Result of controller-runtime; a zero `requeue_after` asks for nothing.
pub record CtrlResult : Type 0 where
  pub requeue : Bool
  pub requeue_after : Duration

abbrev pub done : CtrlResult
done = record { requeue = false; requeue_after = 0 }

abbrev pub requeue_now : CtrlResult
requeue_now = record { requeue = true; requeue_after = 0 }

abbrev pub come_back : Duration → CtrlResult
come_back t = record { requeue = false; requeue_after = t }

-- A sub-reconciler changes the pass's state, also where it returns an error.
abbrev pub Sub {ℓ} : Type ℓ → Type ℓ
Sub S = S → Result SubReconcilerResult × S

abbrev pub latest : Option Duration → Option Duration → Option Duration
latest (some t) before = some t
latest none before = before

abbrev pub finish : Option Duration → CtrlResult
finish (some t) = come_back t
finish none = done

module _ {ℓ} {S : Type ℓ} where
  -- One round of the loop: how it ends, or the rest of the chain.
  abbrev pub round :
      Result SubReconcilerResult × S
      → Option Duration
      → (Option Duration → S → Result CtrlResult × S)
      → Result CtrlResult × S
  round (err e, s) deferred rest = (err e, s)
  round (ok r, s) deferred rest =
      if is_result_stop r
      then (ok done, s)
      else if is_result_requeue r
      then (ok requeue_now, s)
      else elim r.result_requeue_after [
        | some t ↦ (ok (come_back t), s)
        | none ↦ rest (latest r.deferred_requeue_after deferred) s
      ]

  unfoldable pub run_chain : List (Sub S) → Option Duration → S → Result CtrlResult × S
  run_chain [] deferred s = (ok (finish deferred), s)
  run_chain (sub ∷ subs) deferred s = round (sub s) deferred (run_chain subs)
