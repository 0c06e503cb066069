-- ===== src/Controller/SubReconciler/Chain.antt =====
-- Where the chain stops, and which requeue it asks for.
use mathlib.Core.Path.{fun_ext}
use cluster_agent.Prelude.{
  ◌≡◌, refl, ap, arith, true, Option, some, none, List, [], ◌∷◌, ◌++◌, map, Result, ok, err,
  is_some, ◌⊎◌,
}
use cluster_agent.Api.Meta.{Duration}
use cluster_agent.Controller.SubReconciler.{
  SubReconcilerResult, Sub, is_result_stop, is_result_requeue, run_chain, result_continue,
  deferred_requeue, latest, finish, round,
}

-- The results after which the chain does not go on.
abbrev pub Ends : Result SubReconcilerResult → Type 0
Ends (err e) = Unit
Ends (ok r) =
    (is_result_stop r ≡ true)
    ⊎ (is_result_requeue r ≡ true)
    ⊎ (is_some r.result_requeue_after ≡ true)

module _ {ℓ} {S : Type ℓ} where
  cut_at_once :
      (sub : Sub S) (after : List (Sub S)) (deferred : Option Duration) (s : S)
      → Ends (sub s).0
      → run_chain (sub ∷ after) deferred s ≡ run_chain (sub ∷ []) deferred s
  unfolding run_chain
  cut_at_once sub after deferred s h = ground arith

  -- A sub-reconciler that always ends the pass, by an error, a stop or an immediate requeue, cuts
  -- the chain: what stands after it changes neither the result nor the state.
  pub run_chain_cut :
      (before after : List (Sub S)) (sub : Sub S) (deferred : Option Duration) (s : S)
      → ((t : S) → Ends (sub t).0)
      → run_chain (before ++ sub ∷ after) deferred s ≡ run_chain (before ++ sub ∷ []) deferred s
  unfolding run_chain
  run_chain_cut [] after sub deferred s h = cut_at_once sub after deferred s (h s)
  run_chain_cut (x ∷ before) after sub deferred s h =
      ap (round (x s) deferred) (fun_ext λ d. fun_ext λ t. run_chain_cut before after sub d t h)

  -- A sub-reconciler that lets the chain go on, with or without a deferred requeue.
  abbrev pub passing : Option Duration × (S → S) → Sub S
  passing (none, f) s = (ok result_continue, f s)
  passing (some t, f) s = (ok (deferred_requeue t), f s)

  abbrev pub run_all : List (Option Duration × (S → S)) → S → S
  run_all [] s = s
  run_all ((t, f) ∷ subs) s = run_all subs (f s)

  abbrev pub last_deferred : List (Option Duration × (S → S)) → Option Duration → Option Duration
  last_deferred [] deferred = deferred
  last_deferred ((t, f) ∷ subs) deferred = last_deferred subs (latest t deferred)

  -- If every sub-reconciler lets the chain go on, all of them run, in order, and the pass asks
  -- for the deferred requeue that was reported last, or for none.
  pub run_chain-passing :
      (subs : List (Option Duration × (S → S))) (deferred : Option Duration) (s : S)
      → run_chain (map passing subs) deferred s
        ≡ (ok (finish (last_deferred subs deferred)), run_all subs s)
  unfolding run_chain
  run_chain-passing [] deferred s = refl
  run_chain-passing ((none, f) ∷ subs) deferred s = run_chain-passing subs deferred (f s)
  run_chain-passing ((some t, f) ∷ subs) deferred s = run_chain-passing subs (some t) (f s)
