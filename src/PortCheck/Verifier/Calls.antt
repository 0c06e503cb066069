-- ===== src/PortCheck/Verifier/Calls.antt =====
-- What the calls of a verifier return.
use mathlib.Core.Path.{fun_ext}
use cluster_agent.Prelude.{
  ◌≡◌, ◌<◌, ◌↔◌, ap, Bool, true, false, some, none, List, [], arith, ltb, length, str_eq,
  Bool-cases, inl, inr, if◌then◌else◌,
}
use cluster_agent.PortCheck.Dialer.{DialResult}
use cluster_agent.PortCheck.Verifier.{
  Key, NameKey, Job, Verifier, queue_depth, job_name, name_key, same_name, set_at, get, answered,
  refuses, admit, send, enqueue, finish, forget,
}
use cluster_agent.PortCheck.Verifier.SingleFlight.{same_name_means, same_name_refl}

-- Enqueue takes a job exactly when no answer is stored for its revision, no job of its resource
-- is in flight, and the queue has room.
pub enqueue_accepts_iff :
    (v : Verifier) (j : Job)
    → ((enqueue v j).1 ≡ true) ↔ (
        (answered v j.key ≡ false)
        × (v.pending (job_name j) ≡ false)
        × (length v.queue < queue_depth))
unfolding enqueue refuses send admit
enqueue_accepts_iff v j = ground arith

-- Setting the marker and clearing it again is no change where it was clear.
set_at_restore :
    (k : NameKey) (m : NameKey → Bool) → m k ≡ false → set_at k false (set_at k true m) ≡ m
unfolding set_at
set_at_restore k m h = fun_ext λ j. ground (arith, same_name_means k j)

send_refused :
    (v : Verifier) (j : Job)
    → v.pending (job_name j) ≡ false
    → (send (admit v j) [] j v.offered).1 ≡ false
    → (send (admit v j) [] j v.offered).0 ≡ v
unfolding send admit
send_refused v j p h = elim (Bool-cases (ltb (length v.queue) queue_depth)) [
  | inl e ↦ ground (arith, e)
  | inr e ↦
      rw (e, send, admit)
        (ap (λ m. record v { pending = m }) (set_at_restore (job_name j) v.pending p))
]

-- A refused Enqueue, on any of its three grounds, leaves the verifier as it was: no marker stays
-- behind for a job that will never run.
pub enqueue_refused : (v : Verifier) (j : Job) → (enqueue v j).1 ≡ false → (enqueue v j).0 ≡ v
unfolding enqueue refuses
enqueue_refused v j h = ground (arith, send_refused v j)

get-answered : (v : Verifier) (key : Key) → (answered v key ≡ false) ↔ (get v key ≡ none)
unfolding get answered
get-answered v key = ground arith

-- When a worker finishes a job, Get returns its result for the revision that was dialed, no other
-- revision of the resource has an answer, the resource is no longer pending, and the answers for
-- every other resource stay.
pub get-finish :
    (v : Verifier) (before after : List Job) (j : Job) (result : DialResult) (key : Key)
    → let w = finish v before j after result in
      (w.pending (job_name j) ≡ false)
      × (get w key ≡ (
          if same_name (job_name j) (name_key key)
          then (if str_eq j.key.revision key.revision then some result else none)
          else get v key))
unfolding get finish set_at
get-finish v before after j result key = ground (arith, same_name_refl (job_name j))

-- After Forget there is no answer for the key, so that the next Enqueue is refused only for a job
-- in flight or a full queue; the answers of other resources stay.
pub get-forget :
    (v : Verifier) (j : Job)
    → let w = forget v j.key in
      (get w j.key ≡ none)
      × (((enqueue w j).1 ≡ true)
          ↔ ((v.pending (job_name j) ≡ false) × (length v.queue < queue_depth)))
      × ((key : Key) → same_name (job_name j) (name_key key) ≡ false → get w key ≡ get v key)
unfolding get forget set_at answered
get-forget v j =
    let n = same_name_refl (job_name j) in
    let i = enqueue_accepts_iff (forget v j.key) j in
    (ground (arith, n), ground (arith, n, i), λ key h. ground arith)
