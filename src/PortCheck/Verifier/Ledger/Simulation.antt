-- ===== src/PortCheck/Verifier/Ledger/Simulation.antt =====
-- The verifier of pkg/portcheck/verifier.go follows the ledger.
use mathlib.Core.Path.{subst}
use cluster_agent.Prelude.{
  ◌∙◌, ℕ, ◌≡◌, refl, Bool, true, false, Option, some, none, List, [], ◌∷◌, ◌++◌, arith, All,
  is_some, if◌then◌else◌, ap, count_where, ltb, length, Bool-cases, inl, inr,
}
use cluster_agent.PortCheck.Dialer.{DialResult}
use cluster_agent.PortCheck.Verifier.{
  Key, NameKey, Job, Verifier, StoredResult, job_name, name_key, set_at, new_verifier, answered,
  refuses, admit, send, receive, finish, forget, cancel, exit_worker, queue_depth,
}
use cluster_agent.PortCheck.Verifier.Steps.{
  Step, claims, sends, receives, finishes, forgets, cancels, exits, Reachable, start, next,
}
use cluster_agent.PortCheck.Verifier.SingleFlight.{
  IsWf, Step-IsWf, Reachable-IsWf, is_for, same_name_means, same_name_refl,
}
use cluster_agent.PortCheck.Verifier.Ledger.{
  Ledger, Event, asked, resolved, forgotten, silent, sent_event, event_of, events, empty_ledger,
  has_answer, Move, awaits, answers_it, drops, clears, keeps, stays, Follows, fresh, moves,
  IsAwaited, IsView,
}

-- The simulation: the ledger after the event of a step.
Advances : Event → Ledger → Verifier → Type 0
Advances e a w = (b : Ledger) × Move e a b × IsView w b

set_at_same : {A : Type 0} (k : NameKey) (x : A) (m : NameKey → A) → set_at k x m k ≡ x
unfolding set_at
set_at_same k x m = ground (arith, same_name_refl k)

set_at-is_some :
    (k : NameKey) (o : Option Job) (pending : NameKey → Bool) (awaited : NameKey → Option Job)
    → ((j : NameKey) → pending j ≡ is_some (awaited j))
    → (j : NameKey) → set_at k (is_some o) pending j ≡ is_some (set_at k o awaited j)
unfolding set_at
set_at-is_some k o pending awaited h j = ground (arith, h j)

-- A new marker for a resource leaves the awaited jobs of the others.
awaits-kept :
    (a : Ledger) (j : Job)
    → a.awaited (job_name j) ≡ none
    → (xs : List Job) → All (IsAwaited a) xs
    → All (IsAwaited (record a { awaited = set_at (job_name j) (some j) a.awaited })) xs
unfolding set_at
awaits-kept a j h [] all = tt
awaits-kept a j h (x ∷ xs) (p, all) =
    (ground (arith, h, p, same_name_means (job_name j) (job_name x)), awaits-kept a j h xs all)

-- Clearing a resource's entry leaves the awaited jobs of the others.
cleared-kept :
    (a : Ledger) (j : Job)
    → (xs : List Job) → count_where (is_for (job_name j)) xs ≡ 0
    → All (IsAwaited a) xs
    → All (IsAwaited (record a { awaited = set_at (job_name j) none a.awaited })) xs
unfolding set_at count_where
cleared-kept a j [] h all = tt
cleared-kept a j (x ∷ xs) h (p, all) = (
  ground (arith, h, p, same_name_means (job_name j) (job_name x), same_name_refl (job_name j)),
  cleared-kept a j xs (ground (arith, h)) all,
)

All-split :
    (a : Ledger) (before : List Job) (j : Job) (after : List Job)
    → All (IsAwaited a) (before ++ j ∷ after)
    → IsAwaited a j × All (IsAwaited a) (before ++ after)
All-split a [] j after all = all
All-split a (x ∷ before) j after (p, all) =
    let rest = All-split a before j after all in (rest.0, (p, rest.1))

All-snoc :
    (a : Ledger) (xs : List Job) (j : Job)
    → All (IsAwaited a) xs
    → IsAwaited a j
    → All (IsAwaited a) (xs ++ (j ∷ []))
All-snoc a [] j all q = (q, tt)
All-snoc a (x ∷ xs) j (p, all) q = (p, All-snoc a xs j all q)

answered-IsView :
    (a : Ledger) (v : Verifier) (key : Key) → IsView v a → has_answer a key ≡ answered v key
unfolding answered
answered-IsView a v key s = rw s.same_answers refl

-- A finished or dropped job was the only one of its resource.
others_of :
    (v : Verifier) (k : NameKey)
    → IsWf v
    → v.pending k ≡ false
    → (count_where (is_for k) v.offered ≡ 0)
      × (count_where (is_for k) v.queue ≡ 0)
      × (count_where (is_for k) v.running ≡ 0)
others_of v k i h = ground (arith, i.marked k, h)

claims-Advances :
    (a : Ledger) (v : Verifier) (j : Job)
    → IsView v a
    → refuses v j ≡ false
    → Advances (asked j) a (admit v j)
unfolding Advances refuses admit
claims-Advances a v j s h =
    let free : a.awaited (job_name j) ≡ none = ground (arith, h, s.same_pending (job_name j)) in
    (
      record a { awaited = set_at (job_name j) (some j) a.awaited },
      awaits a j free (ground (arith, h, answered-IsView a v j.key s)),
      record {
        same_answers = s.same_answers;
        same_pending = set_at-is_some (job_name j) (some j) v.pending a.awaited s.same_pending;
        offered_awaited = (
          set_at_same (job_name j) (some j) a.awaited,
          awaits-kept a j free v.offered s.offered_awaited,
        );
        queue_awaited = awaits-kept a j free v.queue s.queue_awaited;
        running_awaited = awaits-kept a j free v.running s.running_awaited;
      },
    )

finishes-Advances :
    (a : Ledger) (v : Verifier) (before after : List Job) (j : Job) (result : DialResult)
    → IsView v a
    → IsWf (finish v before j after result)
    → v.running ≡ before ++ j ∷ after
    → Advances (resolved j result) a (finish v before j after result)
unfolding Advances finish
finishes-Advances a v before after j result s i e =
    let run = All-split a before j after (subst (All (IsAwaited a)) e s.running_awaited) in
    let alone =
      others_of (finish v before j after result) (job_name j) i
        (set_at_same (job_name j) false v.pending) in
    let stored : Option StoredResult =
      some (record { revision = j.key.revision; result = result }) in
    (
      record {
        answers = set_at (job_name j) stored a.answers;
        awaited = set_at (job_name j) none a.awaited;
      },
      answers_it a j result run.0,
      record {
        same_answers = ap (set_at (job_name j) stored) s.same_answers;
        same_pending = set_at-is_some (job_name j) none v.pending a.awaited s.same_pending;
        offered_awaited = cleared-kept a j v.offered alone.0 s.offered_awaited;
        queue_awaited = cleared-kept a j v.queue alone.1 s.queue_awaited;
        running_awaited = cleared-kept a j (before ++ after) alone.2 run.1;
      },
    )

-- The send succeeds, or the queue is full and the marker is cleared.
sends-Advances :
    (a : Ledger) (v : Verifier) (before after : List Job) (j : Job)
    → IsView v a
    → IsWf (send v before j after).0
    → v.offered ≡ before ++ j ∷ after
    → Advances (sent_event (send v before j after) j) a (send v before j after).0
unfolding Advances send
sends-Advances a v before after j s i e =
    let off = All-split a before j after (subst (All (IsAwaited a)) e s.offered_awaited) in
    elim (ltb (length v.queue) queue_depth)
        as (λ b. IsWf (sent b).0 → Advances (sent_event (sent b) j) a (sent b).0) [
          | true ↦ λ i. (
            a,
            stays a,
            record {
              same_answers = s.same_answers;
              same_pending = s.same_pending;
              offered_awaited = off.1;
              queue_awaited = All-snoc a v.queue j s.queue_awaited off.0;
              running_awaited = s.running_awaited;
            },
          )
          | false ↦ λ i.
              let alone =
                others_of (sent false).0 (job_name j) i
                  (set_at_same (job_name j) false v.pending) in
              (
                record a { awaited = set_at (job_name j) none a.awaited },
                drops a j off.0,
                record {
                  same_answers = s.same_answers;
                  same_pending =
                      set_at-is_some (job_name j) none v.pending a.awaited s.same_pending;
                  offered_awaited = cleared-kept a j (before ++ after) alone.0 off.1;
                  queue_awaited = cleared-kept a j v.queue alone.1 s.queue_awaited;
                  running_awaited = cleared-kept a j v.running alone.2 s.running_awaited;
                },
              )
        ]
      i
  where
    sent : Bool → Verifier × Bool
    sent b =
        if b then (record v { offered = before ++ after; queue = v.queue ++ (j ∷ []) }, true) else (
          record v { offered = before ++ after; pending = set_at (job_name j) false v.pending },
          false,
        )

forgets-Advances :
    (a : Ledger) (v : Verifier) (key : Key) → IsView v a → Advances (forgotten key) a (forget v key)
unfolding Advances forget
forgets-Advances a v key s = elim (Bool-cases (answered v key)) [
  | inl e ↦ rw e (
    record a { answers = set_at (name_key key) none a.answers },
    clears a key (ground (arith, e, answered-IsView a v key s)),
    record {
      same_answers = ap (set_at (name_key key) none) s.same_answers;
      same_pending = s.same_pending;
      offered_awaited = s.offered_awaited;
      queue_awaited = s.queue_awaited;
      running_awaited = s.running_awaited;
    },
  )
  | inr e ↦ rw e (a, keeps a key (answered-IsView a v key s ∙ e), s)
]

receives-Advances :
    (a : Ledger) (v : Verifier) (j : Job) (rest : List Job)
    → IsView v a
    → v.queue ≡ j ∷ rest
    → Advances silent a (receive v j rest)
unfolding Advances receive
receives-Advances a v j rest s e =
    let all = subst (All (IsAwaited a)) e s.queue_awaited in
    (
      a,
      stays a,
      record {
        same_answers = s.same_answers;
        same_pending = s.same_pending;
        offered_awaited = s.offered_awaited;
        queue_awaited = all.1;
        running_awaited = (all.0, s.running_awaited);
      },
    )

cancels-Advances : (a : Ledger) (v : Verifier) → IsView v a → Advances silent a (cancel v)
unfolding Advances cancel
cancels-Advances a v s = (
  a,
  stays a,
  record {
    same_answers = s.same_answers;
    same_pending = s.same_pending;
    offered_awaited = s.offered_awaited;
    queue_awaited = s.queue_awaited;
    running_awaited = s.running_awaited;
  },
)

exits-Advances :
    (a : Ledger) (v : Verifier) (left : ℕ) → IsView v a → Advances silent a (exit_worker v left)
unfolding Advances exit_worker
exits-Advances a v left s = (
  a,
  stays a,
  record {
    same_answers = s.same_answers;
    same_pending = s.same_pending;
    offered_awaited = s.offered_awaited;
    queue_awaited = s.queue_awaited;
    running_awaited = s.running_awaited;
  },
)

Step-Advances :
    (a : Ledger) {v w : Verifier}
    → IsWf v
    → IsView v a
    → (step : Step v w) → Advances (event_of step) a w
unfolding event_of
Step-Advances a i s (claims v j h) = claims-Advances a v j s h
Step-Advances a i s (sends v before after j e) =
    sends-Advances a v before after j s (Step-IsWf i (sends v before after j e)) e
Step-Advances a i s (receives v j rest e h) = receives-Advances a v j rest s e
Step-Advances a i s (finishes v before after j result e) =
    finishes-Advances a v before after j result s (Step-IsWf i (finishes v before after j result e))
      e
Step-Advances a i s (forgets v key) = forgets-Advances a v key s
Step-Advances a i s (cancels v) = cancels-Advances a v s
Step-Advances a i s (exits v left c e h) = exits-Advances a v left s

-- The verifier implements the ledger, event by event: for every run of callers and workers, in
-- whatever order, the events of that run lead the empty ledger to one that has the verifier's stored
-- results, awaits a job exactly for the pending resources, and awaits every job that is offered,
-- queued or running. The ledger awaits a job when it is admitted, which needs that none is awaited
-- and none is answered at its revision; it stores the result of a dial for the awaited job at the
-- revision of that job; it drops the job that Enqueue refuses in the end; and on a Forget it clears
-- the answer where that is at the revision of the key and keeps it otherwise.
pub Reachable-IsView :
    (workers : ℕ) (v : Verifier)
    → (run : Reachable (new_verifier workers) v)
    → (a : Ledger) × Follows (events run) a × IsView v a
unfolding Advances new_verifier events
Reachable-IsView workers v start = (
  empty_ledger,
  fresh,
  record {
    same_answers = refl;
    same_pending = λ k. refl;
    offered_awaited = tt;
    queue_awaited = tt;
    running_awaited = tt;
  },
)
Reachable-IsView workers v (next before step) =
    let (a, f, s) = Reachable-IsView workers _ before in
    let (b, m, t) = Step-Advances a (Reachable-IsWf workers _ before) s step in (b, moves f m, t)
