-- ===== src/ImageBuild/Reconcile/Stored.antt =====
-- What the writes of a pass over an ImageBuild say.
use cluster_agent.Prelude.{
  ◌≡◌, ◌≢◌, refl, ap, ◌⊎◌, inl, inr, Bool, true, false, not, Option, some, none, List, [], ◌∷◌,
  ◌++◌, Result, ok, err, arith, if◌then◌else◌, Bool-cases, map, All,
}
use cluster_agent.Api.Meta.{ConditionOps, Time}
use cluster_agent.Api.ImageBuild.{ImageBuild, build_available}
use cluster_agent.Controller.SubReconciler.{CtrlResult}
use cluster_agent.ImageBuild.Calls.{
  BuildCalls, JobWrite, Write, writes_job, deletes_image, updates, updates_status,
}
use cluster_agent.ImageBuild.Status.{build_condition_true, image_build_in_terminal_state}
use cluster_agent.ImageBuild.Reconcile.{
  PassEnded, reconcile, after_reconcile, finish_pass, reconcile_found, has_finalizer, finalize,
  by_deletion,
}
use cluster_agent.ImageBuild.Reconcile.Terminal.{IsAgreed}
use cluster_agent.ImageBuild.Reconcile.Deleted.{IsFinalWrite, finalize-IsFinalWrite}
use cluster_agent.ImageBuild.Reconcile.Settled.{HasCompleteJob, reconcile-Settles}

-- A predicate of the builds whose status is written.
abbrev pub OfStored {ℓ} : (ImageBuild → Type ℓ) → Write → Type ℓ
OfStored P (updates_status w) = P w
OfStored P (writes_job j) = Unit
OfStored P (deletes_image url) = Unit
OfStored P (updates w) = Unit

All-append-one :
    (P : Write → Type 0) (ws : List JobWrite) (w : Write)
    → ((j : JobWrite) → P (writes_job j))
    → P w
    → All P (map writes_job ws ++ (w ∷ []))
All-append-one P [] w h q = (q, tt)
All-append-one P (j ∷ ws) w h q = (h j, All-append-one P ws w h q)

All-job_writes :
    (P : Write → Type 0) (ws : List JobWrite)
    → ((j : JobWrite) → P (writes_job j))
    → All P (map writes_job ws)
All-job_writes P [] h = tt
All-job_writes P (j ∷ ws) h = (h j, All-job_writes P ws h)

if-writes :
    (P : Write → Type 0) (t : Bool) (x y : PassEnded)
    → All P x.writes
    → All P y.writes
    → All P (if t then x else y).writes
if-writes P true x y h k = h
if-writes P false x y h k = k

module _ ⦃ops : ConditionOps⦄ (calls : BuildCalls) (b : ImageBuild) where
  -- A status that a pass stores: it agrees with its conditions, and it is a success only where the
  -- build was one before or the API returned a complete job.
  pub record IsStored (w : ImageBuild) : Type 0 where
    pub agreed : IsAgreed w
    pub success_means :
        build_condition_true w build_available ≡ true
        → (build_condition_true b build_available ≡ true) ⊎ HasCompleteJob calls

  after_reconcile-IsStored :
      (r : Result CtrlResult) (c : ImageBuild) (ws : List JobWrite)
      → ((res : CtrlResult) → r ≡ ok res → IsStored c)
      → All (OfStored IsStored) (after_reconcile calls r c ws).writes
  after_reconcile-IsStored (err e) c ws h = All-job_writes (OfStored IsStored) ws (λ j. tt)
  after_reconcile-IsStored (ok res) c ws h =
      All-append-one (OfStored IsStored) ws (updates_status c) (λ j. tt) (h res refl)

  reconcile-IsStored :
      IsAgreed b
      → (res : CtrlResult) → (reconcile calls b).result ≡ ok res
      → IsStored (reconcile calls b).build
  unfolding reconcile
  reconcile-IsStored i res q = elim (Bool-cases (image_build_in_terminal_state b)) [
    | inl e ↦ rw e (record { agreed = i; success_means = λ h. inl h })
    | inr e ↦
        let s = reconcile-Settles calls b i e res q in
        record { agreed = s.agreed; success_means = λ h. inr (s.success_means h) }
  ]

  -- The pass over a build that is being deleted stores no status.
  All-final :
      (P : Write → Type 0) (ws : List Write)
      → ((w : Write) → IsFinalWrite calls b w → P w)
      → All (IsFinalWrite calls b) ws
      → All P ws
  All-final P [] h k = tt
  All-final P (w ∷ ws) h (p, k) = (h w p, All-final P ws h k)

  OfStored-final : (w : Write) → IsFinalWrite calls b w → OfStored IsStored w
  OfStored-final (deletes_image url) h = tt
  OfStored-final (updates w) h = tt
  OfStored-final (writes_job j) h = tt
  OfStored-final (updates_status w) h = absurd h

  by_deletion-IsStored :
      (t : Option Time) → IsAgreed b → All (OfStored IsStored) (by_deletion calls b t).writes
  by_deletion-IsStored (some t) i =
      All-final (OfStored IsStored) (finalize calls b).writes OfStored-final
        (finalize-IsFinalWrite calls b)
  by_deletion-IsStored none i =
      if-writes (OfStored IsStored) (not (has_finalizer b)) _ _ (tt, tt)
        (after_reconcile-IsStored (reconcile calls b).result (reconcile calls b).build
          (reconcile calls b).writes (reconcile-IsStored i))

  -- Where the phase of a build says exactly which of its terminal conditions is True, so it does in
  -- every status that a pass over the build stores, whatever the API answers; and a status that is
  -- stored as a success was one before, or the API returned a complete job in this pass.
  pub reconcile_stores_agreed :
      IsAgreed b → All (OfStored IsStored) (reconcile_found calls b).writes
  unfolding reconcile_found
  reconcile_stores_agreed i = by_deletion-IsStored b.deletion_timestamp i

  -- What may be written of a build that is done.
  abbrev pub IsUntouched : Write → Type 0
  IsUntouched (updates_status w) = w ≡ b
  IsUntouched (updates w) = w.status ≡ b.status
  IsUntouched (deletes_image url) = b.deletion_timestamp ≢ none
  IsUntouched (writes_job j) = ⊥

  kept_at_deletion :
      b.deletion_timestamp ≢ none → (w : Write) → IsFinalWrite calls b w → IsUntouched w
  kept_at_deletion t (deletes_image url) h = t
  kept_at_deletion t (updates w) h = ap (λ c. c.status) h.0
  kept_at_deletion t (writes_job j) h = h
  kept_at_deletion t (updates_status w) h = absurd h

  kept_when_over :
      image_build_in_terminal_state b ≡ true
      → All IsUntouched (finish_pass calls (reconcile calls b)).writes
  unfolding reconcile
  kept_when_over h = rw h (refl, tt)

  by_deletion-IsUntouched :
      (t : Option Time)
      → b.deletion_timestamp ≡ t
      → image_build_in_terminal_state b ≡ true
      → All IsUntouched (by_deletion calls b t).writes
  by_deletion-IsUntouched (some t) e h =
      All-final IsUntouched (finalize calls b).writes (kept_at_deletion (λ q. ground (arith, q, e)))
        (finalize-IsFinalWrite calls b)
  by_deletion-IsUntouched none e h =
      if-writes IsUntouched (not (has_finalizer b)) _ _ (refl, tt) (kept_when_over h)

  -- A build that has succeeded, failed or been cancelled stays as it is: a pass over it creates and
  -- deletes no job, stores no other status than the build's, leaves the status alone in its other
  -- writes, and deletes an image only where the build is being deleted.
  pub terminal-IsUntouched :
      image_build_in_terminal_state b ≡ true → All IsUntouched (reconcile_found calls b).writes
  unfolding reconcile_found
  terminal-IsUntouched h = by_deletion-IsUntouched b.deletion_timestamp refl h
