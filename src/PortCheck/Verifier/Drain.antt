-- ===== src/PortCheck/Verifier/Drain.antt =====
-- How the workers of pkg/portcheck/verifier.go bring a verifier to rest, the dials given by a
-- function.
use mathlib.Core.Path.{subst}
use cluster_agent.Prelude.{
  ◌∙◌, ℕ, zero, suc, ◌+◌, ◌*◌, ◌≤◌, ◌<◌, ◌≡◌, refl, ◌⊎◌, inl, inr, true, false, some, List, [], ◌∷◌,
  arith, length, All, ap, count_where,
}
use cluster_agent.PortCheck.Dialer.{DialResult}
use cluster_agent.PortCheck.Verifier.{
  NameKey, Job, Verifier, StoredResult, job_name, set_at, send, receive, finish, admit, forget,
  cancel, exit_worker, new_verifier,
}
use cluster_agent.PortCheck.Verifier.Steps.{
  Step, sends, receives, finishes, claims, forgets, cancels, exits, Reachable, start, next,
}
use cluster_agent.PortCheck.Verifier.SingleFlight.{
  IsWf, Step-IsWf, is_for, Reachable-IsWf, same_name_means, same_name_refl,
}

List-cases : {A : Type 0} (xs : List A) → (xs ≡ []) ⊎ ((x : A) × (rest : List A) × (xs ≡ x ∷ rest))
List-cases [] = inl refl
List-cases (x ∷ rest) = inr (x, rest, refl)

first_then : {u v w : Verifier} → Step u v → Reachable v w → Reachable u w
first_then s start = next start s
first_then s (next before step) = next (first_then s before) step

-- The result that a worker stores for a job.
abbrev pub result_of : (Job → DialResult) → Job → StoredResult
result_of dial j = record { revision = j.key.revision; result = dial j }

abbrev pub IsAnswered : (Job → DialResult) → Verifier → Job → Type 0
IsAnswered dial w j = w.results (job_name j) ≡ some (result_of dial j)

-- A verifier at rest that has answered every job of an earlier one.
pub record IsDrained (dial : Job → DialResult) (v w : Verifier) : Type 0 where
  pub run : Reachable v w
  pub no_offered : w.offered ≡ []
  pub no_queue : w.queue ≡ []
  pub no_running : w.running ≡ []
  pub not_cancelled : w.cancelled ≡ v.cancelled
  pub no_pending : (k : NameKey) → w.pending k ≡ false
  pub offered_answered : All (IsAnswered dial w) v.offered
  pub queue_answered : All (IsAnswered dial w) v.queue
  pub running_answered : All (IsAnswered dial w) v.running
  pub others_kept : (k : NameKey) → v.pending k ≡ false → w.results k ≡ v.results k

-- Nothing in flight, nothing to do.
rest-IsDrained :
    (dial : Job → DialResult) (v : Verifier)
    → IsWf v
    → v.offered ≡ []
    → v.queue ≡ []
    → v.running ≡ []
    → IsDrained dial v v
unfolding count_where
rest-IsDrained dial v i eo eq er = record {
  run = start;
  no_offered = eo;
  no_queue = eq;
  no_running = er;
  not_cancelled = refl;
  no_pending = λ k. ground (
    arith,
    i.marked k,
    ap (count_where (is_for k)) eo,
    ap (count_where (is_for k)) eq,
    ap (count_where (is_for k)) er,
  );
  offered_answered = rw eo tt;
  queue_answered = rw eq tt;
  running_answered = rw er tt;
  others_kept = λ k h. refl;
}

-- A job that runs marks its resource.
running-pending :
    (v : Verifier) (j : Job) (rest : List Job)
    → IsWf v
    → v.running ≡ j ∷ rest
    → v.pending (job_name j) ≡ true
unfolding count_where
running-pending v j rest i e = ground (
  arith,
  i.marked (job_name j),
  ap (count_where (is_for (job_name j))) e,
  same_name_refl (job_name j),
)

-- The queue has room when it is empty.
send_first :
    (v : Verifier) (j : Job) (rest : List Job)
    → v.queue ≡ []
    → (send v [] j rest).0 ≡ record v { offered = rest; queue = j ∷ [] }
unfolding send
send_first v j rest e = simp e

module _ (dial : Job → DialResult) (v w : Verifier) (j : Job) (rest : List Job) (i : IsWf v) where
  finish-IsDrained :
      v.running ≡ j ∷ rest → IsDrained dial (finish v [] j rest (dial j)) w → IsDrained dial v w
  unfolding finish set_at
  finish-IsDrained e d = record {
    run = first_then (finishes v [] rest j (dial j) e) d.run;
    no_offered = d.no_offered;
    no_queue = d.no_queue;
    no_running = d.no_running;
    not_cancelled = d.not_cancelled;
    no_pending = d.no_pending;
    offered_answered = d.offered_answered;
    queue_answered = d.queue_answered;
    running_answered = rw e (
      (ground (arith, d.others_kept (job_name j), same_name_refl (job_name j))),
      d.running_answered,
    );
    others_kept = λ k h.
        ground
          (arith, d.others_kept k, running-pending v j rest i e, same_name_means (job_name j) k);
  }

  receive-IsDrained :
      v.queue ≡ j ∷ rest
      → length v.running < v.workers
      → IsDrained dial (receive v j rest) w
      → IsDrained dial v w
  unfolding receive
  receive-IsDrained e h d = record {
    run = first_then (receives v j rest e h) d.run;
    no_offered = d.no_offered;
    no_queue = d.no_queue;
    no_running = d.no_running;
    not_cancelled = d.not_cancelled;
    no_pending = d.no_pending;
    offered_answered = d.offered_answered;
    queue_answered = rw e (d.running_answered.0, d.queue_answered);
    running_answered = d.running_answered.1;
    others_kept = d.others_kept;
  }

  send-IsDrained :
      v.offered ≡ j ∷ rest
      → v.queue ≡ []
      → IsDrained dial (record v { offered = rest; queue = j ∷ [] }) w
      → IsDrained dial v w
  send-IsDrained e q d = record {
    run = first_then (subst (Step v) (send_first v j rest q) (sends v [] rest j e)) d.run;
    no_offered = d.no_offered;
    no_queue = d.no_queue;
    no_running = d.no_running;
    not_cancelled = d.not_cancelled;
    no_pending = d.no_pending;
    offered_answered = rw e (d.queue_answered.0, d.offered_answered);
    queue_answered = rw q tt;
    running_answered = d.running_answered;
    others_kept = d.others_kept;
  }

-- The critical sections that are left: an offered job takes three, a queued one two.
abbrev pub work_left : Verifier → ℕ
work_left v = 3 * length v.offered + 2 * length v.queue + length v.running

empty_of_length : {A : Type 0} (xs : List A) → length xs ≡ 0 → xs ≡ []
empty_of_length [] h = refl
empty_of_length (x ∷ xs) h = ground (arith, h)

drain_within :
    (n : ℕ) (dial : Job → DialResult) (v : Verifier)
    → IsWf v
    → 0 < v.workers
    → work_left v ≤ n
    → (w : Verifier) × IsDrained dial v w
unfolding finish receive
drain_within zero dial v i h l = (
  v,
  rest-IsDrained dial v i (empty_of_length v.offered (omega (arith, l)))
      (empty_of_length v.queue (omega (arith, l))) (empty_of_length v.running (omega (arith, l))),
)
drain_within (suc n) dial v i h l = elim (List-cases v.running) [
  | inr (j, rest, e) ↦
      let s : Step v (finish v [] j rest (dial j)) = finishes v [] rest j (dial j) e in
      let d =
        drain_within n dial (finish v [] j rest (dial j)) (Step-IsWf i s) h
          (omega (arith, l, ap length e)) in
      (d.0, finish-IsDrained dial v d.0 j rest i e d.1)
  | inl er ↦ elim (List-cases v.queue) [
    | inr (j, rest, e) ↦
        let s : Step v (receive v j rest) = receives v j rest e (omega (arith, h, ap length er)) in
        let d =
          drain_within n dial (receive v j rest) (Step-IsWf i s) h
            (omega (arith, l, ap length e)) in
        (d.0, receive-IsDrained dial v d.0 j rest i e (omega (arith, h, ap length er)) d.1)
    | inl eq ↦ elim (List-cases v.offered) [
      | inl eo ↦ (v, rest-IsDrained dial v i eo eq er)
      | inr (j, rest, e) ↦
          let s : Step v (record v { offered = rest; queue = j ∷ [] }) =
            subst (Step v) (send_first v j rest eq) (sends v [] rest j e) in
          let d =
            drain_within n dial (record v { offered = rest; queue = j ∷ [] }) (Step-IsWf i s) h
              (omega (arith, l, ap length e, ap length eq)) in
          (d.0, send-IsDrained dial v d.0 j rest i e eq d.1)
    ]
  ]
]

-- Until its context is cancelled, a verifier keeps all its workers.
record IsKept (v w : Verifier) : Type 0 where
  was_open : v.cancelled ≡ false
  same_workers : w.workers ≡ v.workers

Step-IsKept : {v w : Verifier} → Step v w → w.cancelled ≡ false → IsKept v w
unfolding admit send receive finish forget cancel exit_worker
Step-IsKept (claims v j h) o = record { was_open = o; same_workers = refl }
Step-IsKept (sends v before after j e) o = record {
  was_open = ground (arith, o);
  same_workers = ground arith;
}
Step-IsKept (receives v j rest e h) o = record { was_open = o; same_workers = refl }
Step-IsKept (finishes v before after j result e) o = record { was_open = o; same_workers = refl }
Step-IsKept (forgets v key) o = record { was_open = ground (arith, o); same_workers = ground arith }
Step-IsKept (cancels v) o = ground (arith, o)
Step-IsKept (exits v left c e h) o = ground (arith, o, c)

Reachable-workers : {v w : Verifier} → Reachable v w → w.cancelled ≡ false → w.workers ≡ v.workers
Reachable-workers start o = refl
Reachable-workers (next before step) o =
    let k = Step-IsKept step o in k.same_workers ∙ Reachable-workers before k.was_open

-- Whatever the callers and the workers of a verifier have done, if it was started with a worker and
-- its context has not been cancelled, then its workers and its callers can run to rest by finitely
-- many critical sections without cancelling it: nothing is offered, queued, running or pending any more, every job that
-- was in flight has the result of its dial stored at its revision, and a resource that was not
-- pending keeps its result.
pub Reachable-drains :
    (dial : Job → DialResult) (workers : ℕ)
    → 0 < workers
    → (v : Verifier) → Reachable (new_verifier workers) v
    → v.cancelled ≡ false
    → (w : Verifier) × IsDrained dial v w
unfolding new_verifier
Reachable-drains dial workers h v r o =
    drain_within (work_left v) dial v (Reachable-IsWf workers v r)
      (omega (arith, h, Reachable-workers r o)) (omega arith)
