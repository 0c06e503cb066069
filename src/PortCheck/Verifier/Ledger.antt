-- ===== src/PortCheck/Verifier/Ledger.antt =====
-- What pkg/portcheck/verifier.go promises its callers, with the queue and the workers left out: for
-- each resource the stored answer and at most one job that is awaited.
pub mod Simulation
use mathlib.Core.Path.{subst}
use cluster_agent.Prelude.{
  ℕ, ◌≡◌, refl, Bool, true, false, Option, some, none, List, [], ◌∷◌, ◌++◌, arith, All, is_some,
  if◌then◌else◌, str_eq, ap, count_where, count_where_zero, ltb, length, Bool-cases, inl, inr,
}
use cluster_agent.PortCheck.Dialer.{DialResult}
use cluster_agent.PortCheck.Verifier.{
  Key, NameKey, Job, Verifier, StoredResult, job_name, name_key, same_name, set_at, new_verifier,
  answered, refuses, admit, send, receive, finish, forget, queue_depth,
}
use cluster_agent.PortCheck.Verifier.Steps.{
  Step, claims, sends, receives, finishes, forgets, cancels, exits, Reachable, start, next,
}
use cluster_agent.PortCheck.Verifier.SingleFlight.{
  IsWf, Step-IsWf, Reachable-IsWf, is_for, same_name_means, same_name_refl,
}

pub record Ledger : Type 0 where
  pub answers : NameKey → Option StoredResult
  pub awaited : NameKey → Option Job

abbrev pub empty_ledger : Ledger
empty_ledger = record { answers = λ k. none; awaited = λ k. none }

-- The ledger's answer for a key is at the key's revision.
abbrev pub has_answer : Ledger → Key → Bool
has_answer a key = elim (a.answers (name_key key)) [
  | none ↦ false
  | some stored ↦ str_eq stored.revision key.revision
]

-- What a critical section means to the callers: a job is asked for, it is answered, it is lost because
-- Enqueue refused it in the end, an answer is to be forgotten, or nothing.
pub data Event : Type 0 where
  asked lost : Job → Event
  resolved : Job → DialResult → Event
  forgotten : Key → Event
  silent : Event

-- What Enqueue returned for the offered job.
abbrev pub sent_event : Verifier × Bool → Job → Event
sent_event (v, accepted) j = if accepted then silent else lost j

unfoldable pub event_of : {v w : Verifier} → Step v w → Event
unfolding send
event_of (claims v j h) = asked j
event_of (sends v before after j e) = sent_event (send v before j after) j
event_of (receives v j rest e h) = silent
event_of (finishes v before after j result e) = resolved j result
event_of (forgets v key) = forgotten key
event_of (cancels v) = silent
event_of (exits v left c e h) = silent

-- The events of a run, the last one first.
unfoldable pub events : {v w : Verifier} → Reachable v w → List Event
unfolding event_of
events start = []
events (next before step) = event_of step ∷ events before

-- What each event does to the ledger, and when the ledger allows it.
pub data Move : Event → Ledger → Ledger → Type 0 where
  awaits :
      (a : Ledger) (j : Job)
      → a.awaited (job_name j) ≡ none
      → has_answer a j.key ≡ false
      → Move (asked j) a (record a { awaited = set_at (job_name j) (some j) a.awaited })
  answers_it :
      (a : Ledger) (j : Job) (result : DialResult)
      → a.awaited (job_name j) ≡ some j
      → Move (resolved j result) a (record {
        answers =
            set_at
              (job_name j)
              (some (record { revision = j.key.revision; result = result }))
              a.answers;
        awaited = set_at (job_name j) none a.awaited;
      })
  drops :
      (a : Ledger) (j : Job)
      → a.awaited (job_name j) ≡ some j
      → Move (lost j) a (record a { awaited = set_at (job_name j) none a.awaited })
  clears :
      (a : Ledger) (key : Key)
      → has_answer a key ≡ true
      → Move (forgotten key) a (record a { answers = set_at (name_key key) none a.answers })
  keeps : (a : Ledger) (key : Key) → has_answer a key ≡ false → Move (forgotten key) a a
  stays : (a : Ledger) → Move silent a a

-- The ledgers that these events lead to, the last event first.
pub data Follows : List Event → Ledger → Type 0 where
  fresh : Follows [] empty_ledger
  moves :
      {es : List Event} {e : Event} {a b : Ledger} → Follows es a → Move e a b → Follows (e ∷ es) b

abbrev pub IsAwaited : Ledger → Job → Type 0
IsAwaited a j = a.awaited (job_name j) ≡ some j

-- The ledger shows what the verifier has stored and every job that it has in flight.
pub record IsView (v : Verifier) (a : Ledger) : Type 0 where
  pub same_answers : a.answers ≡ v.results
  pub same_pending : (k : NameKey) → v.pending k ≡ is_some (a.awaited k)
  pub offered_awaited : All (IsAwaited a) v.offered
  pub queue_awaited : All (IsAwaited a) v.queue
  pub running_awaited : All (IsAwaited a) v.running
