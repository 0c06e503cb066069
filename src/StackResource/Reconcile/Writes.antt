-- ===== src/StackResource/Reconcile/Writes.antt =====
-- What a pass writes, and when.
use cluster_agent.Prelude.{
  some_inj, ◌≡◌, refl, sym, Bool, true, false, Option, some, none, List, Result, ok, err, arith,
}
use cluster_agent.Api.Meta.{ConditionOps}
use cluster_agent.Api.StackResource.{StackResource, Status, BuildStatus}
use cluster_agent.Controller.Verdict.{fresh_collector}
use cluster_agent.Controller.SubReconciler.{Sub, CtrlResult, run_chain}
use cluster_agent.StackResource.StatusDerive.{derive_summary_status}
use cluster_agent.StackResource.Reconcile.{
  ApiCalls, PassState, set_current_build, get_image_build_status, write_unless, write_derived,
  after_build, after_chain, reconcile_found,
}

-- The status that the API server holds after a pass.
abbrev pub stored : Status → Option StackResource → Status
stored before none = before
stored before (some w) = w.status

module _ ⦃ops : ConditionOps⦄ where
  module _ {ℓ} {W : Type ℓ} where
    -- The object that a pass derives from the end of its chain and the build status.
    abbrev pub derived_from : ApiCalls → PassState W → Option BuildStatus → StackResource
    derived_from calls s b =
        derive_summary_status calls.print_hash (set_current_build s.resource b) s.verdicts

    abbrev pub chain_end :
        List (Sub (PassState W)) → W → StackResource → Result CtrlResult × PassState W
    chain_end subs world resource =
        run_chain subs none
          (record { resource = resource; verdicts = fresh_collector; world = world })

    -- A pass that derives a status: its chain and its read of the build status end without error,
    -- and this is the object that it derives.
    abbrev pub Derives : ApiCalls → Result CtrlResult × PassState W → StackResource → Type ℓ
    Derives calls x w =
        (res : CtrlResult) × (s : PassState W) × (b : Option BuildStatus) × (x ≡ (ok res, s))
        × (get_image_build_status calls s.resource ≡ ok b)
        × (w ≡ derived_from calls s b)

    written-write_unless :
        (same : Bool) (calls : ApiCalls) (res : CtrlResult) (world : W) (d w : StackResource)
        → (write_unless same calls res world d).written ≡ some w
        → (w ≡ d) × (same ≡ false)
    unfolding write_unless
    written-write_unless true calls res world d w h = ground arith
    written-write_unless false calls res world d w h = (sym (some_inj h), refl)

    -- What a pass leaves behind when it reports success.
    stored-write_unless :
        (same : Bool) (calls : ApiCalls) (res : CtrlResult) (world : W) (d : StackResource)
        (original : Status)
        → (same ≡ true → original ≡ d.status)
        → stored original (write_unless same calls res world d).written ≡ d.status
    unfolding write_unless
    stored-write_unless true calls res world d original law = law refl
    stored-write_unless false calls res world d original law = refl

    written-after_chain :
        (calls : ApiCalls) (original : Status) (x : Result CtrlResult × PassState W)
        (w : StackResource)
        → (after_chain calls original x).written ≡ some w
        → Derives calls x w × (calls.same_status original w.status ≡ false)
    unfolding after_chain after_build write_derived
    written-after_chain calls original (err e, s) w h = ground arith
    written-after_chain calls original (ok res, s) w h =
        from_build (get_image_build_status calls s.resource) refl h
      where
        from_build :
            (y : Result (Option BuildStatus))
            → get_image_build_status calls s.resource ≡ y
            → (after_build calls original res s y).written ≡ some w
            → Derives calls (ok res, s) w × (calls.same_status original w.status ≡ false)
        from_build (err e) eq k = ground arith
        from_build (ok b) eq k =
            let (u, n) =
              written-write_unless (calls.same_status original (derived_from calls s b).status)
                calls res s.world (derived_from calls s b) w k in
            ((res, s, b, refl, eq, u), rw u n)

    -- A pass over an object asks for a write only if the chain and the read of the build status
    -- ended without error and the derived status differs from the one that was read, and what it
    -- writes is exactly the derived object. In particular a pass that fails before writes nothing.
    pub reconcile_writes :
        (calls : ApiCalls) (subs : List (Sub (PassState W))) (world : W) (r w : StackResource)
        → (reconcile_found calls subs world r).written ≡ some w
        → Derives calls (chain_end subs world r) w × (calls.same_status r.status w.status ≡ false)
    unfolding reconcile_found
    reconcile_writes calls subs world r w h =
        written-after_chain calls r.status (chain_end subs world r) w h

    settled :
        (calls : ApiCalls) (original : Status) (x : Result CtrlResult × PassState W)
        (c : CtrlResult)
        → ((a b : Status) → calls.same_status a b ≡ true → a ≡ b)
        → (after_chain calls original x).result ≡ ok c
        → (w : StackResource) × Derives calls x w
          × (stored original (after_chain calls original x).written ≡ w.status)
    unfolding after_chain after_build write_derived
    settled calls original (err e, s) c law h = ground arith
    settled calls original (ok res, s) c law h =
        from_build (get_image_build_status calls s.resource) refl h
      where
        from_build :
            (y : Result (Option BuildStatus))
            → get_image_build_status calls s.resource ≡ y
            → (after_build calls original res s y).result ≡ ok c
            → (w : StackResource) × Derives calls (ok res, s) w
              × (stored original (after_build calls original res s y).written ≡ w.status)
        from_build (err e) eq k = ground arith
        from_build (ok b) eq k =
            let d = derived_from calls s b in
            (
              d,
              (res, s, b, refl, eq, refl),
              stored-write_unless (calls.same_status original d.status) calls res s.world d original
                  (law original d.status),
            )

    -- A pass over an object that reports success leaves the API server with the status that the
    -- derivation gives for the end of its chain, where the comparison of statuses only equates
    -- equal ones.
    pub reconcile_settles :
        (calls : ApiCalls) (subs : List (Sub (PassState W))) (world : W) (r : StackResource)
        (c : CtrlResult)
        → ((a b : Status) → calls.same_status a b ≡ true → a ≡ b)
        → (reconcile_found calls subs world r).result ≡ ok c
        → (w : StackResource) × Derives calls (chain_end subs world r) w
          × (stored r.status (reconcile_found calls subs world r).written ≡ w.status)
    unfolding reconcile_found
    reconcile_settles calls subs world r c law h =
        settled calls r.status (chain_end subs world r) c law h
