-- ===== src/PortCheck/Verifier.antt =====
-- pkg/portcheck/verifier.go: a bounded worker pool and the results it stores.
-- The two maps are functions of the name key. A caller of Enqueue holds its job in `offered`
-- between its first critical section and its send on the queue, and a worker holds its job in
-- `running` while it dials. `workers` counts the workers that have not exited; a worker may exit
-- between two jobs once the context of the verifier is cancelled.
pub mod Steps
pub mod SingleFlight
pub mod Calls
pub mod Drain
pub mod Ledger
use cluster_agent.Prelude.{
  ℕ, String, Bool, true, false, not, Option, some, none, List, [], ◌∷◌, ◌++◌, length, str_eq, ltb,
  ◌==◌, ◌&&◌, ◌||◌, if◌then◌else◌,
}
use cluster_agent.PortCheck.Dialer.{DialResult}

abbrev pub default_workers : ℕ
default_workers = 8

abbrev pub queue_depth : ℕ
queue_depth = 512

pub record Key : Type 0 where
  pub namespace : String
  pub name : String
  pub revision : String

pub record NameKey : Type 0 where
  pub namespace : String
  pub name : String

abbrev pub name_key : Key → NameKey
name_key k = record { namespace = k.namespace; name = k.name }

-- `==` on name keys
abbrev pub same_name : NameKey → NameKey → Bool
same_name j k = str_eq j.namespace k.namespace && str_eq j.name k.name

pub record StoredResult : Type 0 where
  pub revision : String
  pub result : DialResult

pub record Job : Type 0 where
  pub key : Key
  pub pod_ip : String
  pub ports : List ℕ

abbrev pub job_name : Job → NameKey
job_name j = name_key j.key

pub record Verifier : Type 0 where
  pub workers : ℕ
  pub cancelled : Bool
  pub offered : List Job
  pub queue : List Job
  pub running : List Job
  pub results : NameKey → Option StoredResult
  pub pending : NameKey → Bool

-- `m[k] = v` and `delete(m, k)` on a map that is a function
unfoldable pub set_at {ℓ} : {V : Type ℓ} → NameKey → V → (NameKey → V) → NameKey → V
set_at k v m j = if same_name k j then v else m j

-- newVerifier
unfoldable pub new_verifier : ℕ → Verifier
new_verifier workers = record {
  workers = workers;
  cancelled = false;
  offered = [];
  queue = [];
  running = [];
  results = λ k. none;
  pending = λ k. false;
}

-- Get
unfoldable pub get : Verifier → Key → Option DialResult
get v key = elim (v.results (name_key key)) [
  | none ↦ none
  | some stored ↦ if str_eq stored.revision key.revision then some stored.result else none
]

-- `done && stored.revision == key.Revision`
unfoldable pub answered : Verifier → Key → Bool
answered v key = elim (v.results (name_key key)) [
  | none ↦ false
  | some stored ↦ str_eq stored.revision key.revision
]

-- The test of Enqueue's first critical section, and the job that it admits.
unfoldable pub refuses : Verifier → Job → Bool
unfolding answered
refuses v j = answered v j.key || v.pending (job_name j)

unfoldable pub admit : Verifier → Job → Verifier
unfolding set_at
admit v j = record v { pending = set_at (job_name j) true v.pending; offered = j ∷ v.offered }

-- The select of Enqueue for the offered job between `before` and `after`: a send, or the marker
-- is cleared because the queue is full.
unfoldable pub send : Verifier → List Job → Job → List Job → Verifier × Bool
unfolding set_at
send v before j after =
    if ltb (length v.queue) queue_depth
    then (record v { offered = before ++ after; queue = v.queue ++ (j ∷ []) }, true)
    else (
      record v { offered = before ++ after; pending = set_at (job_name j) false v.pending },
      false,
    )

-- Enqueue, when nothing happens between its critical sections
unfoldable pub enqueue : Verifier → Job → Verifier × Bool
unfolding refuses admit send
enqueue v j = if refuses v j then (v, false) else send (admit v j) [] j v.offered

-- A worker receives the first job of the queue.
unfoldable pub receive : Verifier → Job → List Job → Verifier
receive v j rest = record v { queue = rest; running = j ∷ v.running }

-- The context of the verifier is cancelled.
unfoldable pub cancel : Verifier → Verifier
cancel v = record v { cancelled = true }

-- A worker leaves its loop, and `left` workers remain.
unfoldable pub exit_worker : Verifier → ℕ → Verifier
exit_worker v left = record v { workers = left }

-- A worker's critical section after its dial.
unfoldable pub finish : Verifier → List Job → Job → List Job → DialResult → Verifier
unfolding set_at
finish v before j after result = record v {
  running = before ++ after;
  results =
      set_at (job_name j) (some (record { revision = j.key.revision; result = result })) v.results;
  pending = set_at (job_name j) false v.pending;
}

-- Pending
abbrev pub is_pending : Verifier → Key → Bool
is_pending v key = v.pending (name_key key)

-- Forget
unfoldable pub forget : Verifier → Key → Verifier
unfolding set_at answered
forget v key =
    if answered v key then record v { results = set_at (name_key key) none v.results } else v
