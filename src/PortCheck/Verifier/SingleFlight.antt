-- ===== src/PortCheck/Verifier/SingleFlight.antt =====
-- At most one job of a resource is in flight, in every reachable state.
use cluster_agent.Prelude.{
  ℕ, suc, ◌+◌, ◌≤◌, ◌<◌, ◌≡◌, refl, ap, Bool, true, false, List, [], ◌∷◌, ◌++◌, arith, length,
  length-append, count_where, count_where-append, eq_iff, if◌then◌else◌,
}
use cluster_agent.PortCheck.Dialer.{DialResult}
use cluster_agent.PortCheck.Verifier.{
  Key, NameKey, Job, Verifier, queue_depth, job_name, same_name, set_at, new_verifier, refuses,
  admit, send, receive, finish, forget, cancel, exit_worker,
}
use cluster_agent.PortCheck.Verifier.Steps.{
  Step, claims, sends, receives, finishes, forgets, cancels, exits, Reachable, start, next,
}

abbrev pub is_for : NameKey → Job → Bool
is_for k j = same_name (job_name j) k

-- The jobs of a resource that were admitted and are not answered or dropped yet.
abbrev pub in_flight : Verifier → NameKey → ℕ
in_flight v k =
    count_where (is_for k) v.offered
    + count_where (is_for k) v.queue
    + count_where (is_for k) v.running

pub record IsWf (v : Verifier) : Type 0 where
  pub marked : (k : NameKey) → in_flight v k ≡ (if v.pending k then 1 else 0)
  pub queue_bound : length v.queue ≤ queue_depth
  pub running_bound : length v.running ≤ v.workers

abbrev one_if : Bool → ℕ
one_if b = if b then 1 else 0

-- Taking one job out of a list of jobs.
count-split :
    (k : NameKey) (before after : List Job) (j : Job)
    → count_where (is_for k) (before ++ j ∷ after)
      ≡ one_if (is_for k j) + count_where (is_for k) (before ++ after)
unfolding count_where
count-split k before after j = ground (
  arith,
  count_where-append (is_for k) before (j ∷ after),
  count_where-append (is_for k) before after,
)

length-split :
    (before after : List Job) (j : Job)
    → length (before ++ j ∷ after) ≡ suc (length (before ++ after))
length-split before after j =
    omega (arith, length-append before (j ∷ after), length-append before after)

pub same_name_means : (a b : NameKey) → same_name a b ≡ true → a ≡ b
same_name_means a b h = ground (arith, eq_iff a.namespace b.namespace, eq_iff a.name b.name)

pub same_name_refl : (k : NameKey) → same_name k k ≡ true
same_name_refl k = ground (arith, eq_iff k.namespace k.namespace, eq_iff k.name k.name)

admit-IsWf : (v : Verifier) (j : Job) → IsWf v → refuses v j ≡ false → IsWf (admit v j)
unfolding admit refuses set_at count_where
admit-IsWf v j i h = record {
  marked = λ k. ground (arith, i.marked k, i.marked (job_name j), same_name_means (job_name j) k);
  queue_bound = i.queue_bound;
  running_bound = i.running_bound;
}

send-IsWf :
    (v : Verifier) (before after : List Job) (j : Job)
    → IsWf v
    → v.offered ≡ before ++ j ∷ after
    → IsWf (send v before j after).0
unfolding send set_at count_where
send-IsWf v before after j i e = record {
  marked = λ k. ground (
    arith,
    i.marked k,
    count-split k before after j,
    ap (count_where (is_for k)) e,
    count_where-append (is_for k) v.queue (j ∷ []),
  );
  queue_bound = ground (arith, i.queue_bound, length-append v.queue (j ∷ []));
  running_bound = ground (arith, i.running_bound);
}

receive-IsWf :
    (v : Verifier) (j : Job) (rest : List Job)
    → IsWf v
    → v.queue ≡ j ∷ rest
    → length v.running < v.workers
    → IsWf (receive v j rest)
unfolding receive count_where
receive-IsWf v j rest i e h = record {
  marked = λ k. ground (arith, i.marked k, ap (count_where (is_for k)) e);
  queue_bound = omega (arith, i.queue_bound, ap length e);
  running_bound = omega (arith, h);
}

finish-IsWf :
    (v : Verifier) (before after : List Job) (j : Job) (result : DialResult)
    → IsWf v
    → v.running ≡ before ++ j ∷ after
    → IsWf (finish v before j after result)
unfolding finish set_at count_where
finish-IsWf v before after j result i e = record {
  marked =
      λ k. ground (arith, i.marked k, count-split k before after j, ap (count_where (is_for k)) e);
  queue_bound = i.queue_bound;
  running_bound = omega (arith, i.running_bound, ap length e, length-split before after j);
}

forget-IsWf : (v : Verifier) (key : Key) → IsWf v → IsWf (forget v key)
unfolding forget
forget-IsWf v key i = record {
  marked = λ k. ground (arith, i.marked k);
  queue_bound = ground (arith, i.queue_bound);
  running_bound = ground (arith, i.running_bound);
}

cancel-IsWf : (v : Verifier) → IsWf v → IsWf (cancel v)
unfolding cancel
cancel-IsWf v i = record {
  marked = i.marked;
  queue_bound = i.queue_bound;
  running_bound = i.running_bound;
}

exit_worker-IsWf :
    (v : Verifier) (left : ℕ)
    → IsWf v
    → v.workers ≡ suc left
    → length v.running < v.workers
    → IsWf (exit_worker v left)
unfolding exit_worker
exit_worker-IsWf v left i e h = record {
  marked = i.marked;
  queue_bound = i.queue_bound;
  running_bound = omega (arith, e, h);
}

pub Step-IsWf : {v w : Verifier} → IsWf v → Step v w → IsWf w
Step-IsWf i (claims v j h) = admit-IsWf v j i h
Step-IsWf i (sends v before after j e) = send-IsWf v before after j i e
Step-IsWf i (receives v j rest e h) = receive-IsWf v j rest i e h
Step-IsWf i (finishes v before after j result e) = finish-IsWf v before after j result i e
Step-IsWf i (forgets v key) = forget-IsWf v key i
Step-IsWf i (cancels v) = cancel-IsWf v i
Step-IsWf i (exits v left c e h) = exit_worker-IsWf v left i e h

new_verifier-IsWf : (workers : ℕ) → IsWf (new_verifier workers)
unfolding new_verifier count_where
new_verifier-IsWf workers = record {
  marked = λ k. refl;
  queue_bound = omega arith;
  running_bound = omega arith;
}

-- Whatever the callers and the workers do, and in whatever order their critical sections run, a
-- resource has exactly one job in flight while its pending marker is set and none otherwise, the
-- queue holds at most its depth, and no more jobs run than there are workers left.
pub Reachable-IsWf : (workers : ℕ) (v : Verifier) → Reachable (new_verifier workers) v → IsWf v
Reachable-IsWf workers v start = new_verifier-IsWf workers
Reachable-IsWf workers v (next before step) = Step-IsWf (Reachable-IsWf workers _ before) step
