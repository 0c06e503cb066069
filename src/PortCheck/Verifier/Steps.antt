-- ===== src/PortCheck/Verifier/Steps.antt =====
-- The critical sections of pkg/portcheck/verifier.go, in any order and by any number of callers.
use cluster_agent.Prelude.{ℕ, suc, ◌≡◌, ◌<◌, true, false, ◌++◌, List, ◌∷◌, length}
use cluster_agent.PortCheck.Dialer.{DialResult}
use cluster_agent.PortCheck.Verifier.{
  Key, Job, Verifier, refuses, admit, send, receive, finish, forget, cancel, exit_worker,
}

pub data Step : Verifier → Verifier → Type 0 where
  claims : (v : Verifier) (j : Job) → refuses v j ≡ false → Step v (admit v j)
  sends :
      (v : Verifier) (before after : List Job) (j : Job)
      → v.offered ≡ before ++ j ∷ after
      → Step v (send v before j after).0
  receives :
      (v : Verifier) (j : Job) (rest : List Job)
      → v.queue ≡ j ∷ rest
      → length v.running < v.workers
      → Step v (receive v j rest)
  finishes :
      (v : Verifier) (before after : List Job) (j : Job) (result : DialResult)
      → v.running ≡ before ++ j ∷ after
      → Step v (finish v before j after result)
  forgets : (v : Verifier) (key : Key) → Step v (forget v key)
  cancels : (v : Verifier) → Step v (cancel v)
  exits :
      (v : Verifier) (left : ℕ)
      → v.cancelled ≡ true
      → v.workers ≡ suc left
      → length v.running < v.workers
      → Step v (exit_worker v left)

-- The states that are reached from this one.
pub data Reachable (v₀ : Verifier) : Verifier → Type 0 where
  start : Reachable v₀ v₀
  next : {v w : Verifier} → Reachable v₀ v → Step v w → Reachable v₀ w
