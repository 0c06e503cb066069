-- ===== src/Workload/Crash/Details.antt =====
-- When details are captured, and what they keep the port checks from.
use cluster_agent.Prelude.{
  String, ◌≡◌, ◌↔◌, refl, sym, ap, ◌∙◌, Bool, true, false, Option, some, none, List, [], ◌∷◌, ◌++◌,
  map, keep, exists, find_first, All, is_empty, sort_by, place, arith, Option-cases, inl, inr,
  if◌then◌else◌,
}
use cluster_agent.Api.StackResource.{StackResource, LastFailureDetail, runtime_crash}
use cluster_agent.Workload.Crash.{
  ContainerStatus, Pod, is_crash_state, build_last_failure_detail, has_any_crashing_container,
  newest_first, details_of_pod, capture_failure_details,
}
use cluster_agent.Workload.Readiness.{port_diagnosis_allowed}

module _ {ℓ κ} {A : Type ℓ} (P : A → Type κ) (before : A → A → Bool) where
  if-All :
      {Q : Type κ} (b : Bool) (xs ys : List A)
      → (All P xs ↔ Q)
      → (All P ys ↔ Q)
      → All P (if b then xs else ys) ↔ Q
  if-All true xs ys h k = h
  if-All false xs ys h k = k

  place-All : (x : A) (ys : List A) → All P (place before x ys) ↔ (P x × All P ys)
  unfolding place
  place-All x [] = (λ h. h, λ h. h)
  place-All x (y ∷ ys) =
      let i = place-All x ys in
      if-All (before x y) (x ∷ y ∷ ys) (y ∷ place before x ys) (λ h. h, λ h. h)
        (λ (py, h). ((i.0 h).0, (py, (i.0 h).1)), λ (px, (py, h)). (py, i.1 (px, h)))

  sort_by-All : (xs : List A) → All P (sort_by before xs) ↔ All P xs
  unfolding sort_by
  sort_by-All [] = (λ h. h, λ h. h)
  sort_by-All (x ∷ xs) =
      let i = place-All x (sort_by before xs) in
      let j = sort_by-All xs in (λ h. ((i.0 h).0, j.0 (i.0 h).1), λ (p, ps). i.1 (p, j.1 ps))

find_first-All :
    {A : Type 0} (p : A → Bool) (xs : List A) → (find_first p xs ≡ none) ↔ All (λ x. p x ≡ false) xs
unfolding find_first
find_first-All p [] = (λ h. tt, λ h. refl)
find_first-All p (x ∷ xs) = ground (arith, find_first-All p xs)

found-find_first :
    {A : Type 0} (p : A → Bool) (xs : List A) (x : A) → find_first p xs ≡ some x → p x ≡ true
unfolding find_first
found-find_first p [] x h = ground arith
found-find_first p (y ∷ ys) x h = ground (arith, found-find_first p ys x)

keep-append-empty :
    (p : ContainerStatus → Bool) (xs ys : List ContainerStatus)
    → is_empty (keep p (xs ++ ys)) ≡ true
    → (exists p xs ≡ false) × (exists p ys ≡ false)
unfolding keep exists
keep-append-empty p [] [] h = ground arith
keep-append-empty p [] (y ∷ ys) h = ground (arith, keep-append-empty p [] ys)
keep-append-empty p (x ∷ xs) ys h = ground (arith, keep-append-empty p xs ys)

map-is_empty : {A B : Type 0} (f : A → B) (xs : List A) → is_empty (map f xs) ≡ is_empty xs
map-is_empty f [] = refl
map-is_empty f (x ∷ xs) = refl

details_of_crashing :
    (sanitize : String → String) (release_id : String) (pod : Pod)
    → has_any_crashing_container pod ≡ true
    → is_empty (details_of_pod sanitize release_id (some pod)) ≡ false
unfolding has_any_crashing_container
details_of_crashing sanitize release_id pod h = ground (
  arith,
  map-is_empty (build_last_failure_detail sanitize release_id)
      (keep is_crash_state (pod.init_container_statuses ++ pod.container_statuses)),
  keep-append-empty is_crash_state pod.init_container_statuses pod.container_statuses,
)

no_details_iff :
    (sanitize : String → String) (release_id : String) (pods : List Pod)
    → (is_empty (capture_failure_details sanitize release_id pods) ≡ true)
      ↔ All (λ pod. has_any_crashing_container pod ≡ false) pods
unfolding capture_failure_details
no_details_iff sanitize release_id pods =
    let crashing = has_any_crashing_container in
    let sorted = sort_by newest_first pods in
    let i = sort_by-All (λ pod. crashing pod ≡ false) newest_first pods in
    let j = find_first-All crashing sorted in
    elim (Option-cases (find_first crashing sorted)) [
      | inl e ↦ (λ h. i.0 (j.0 e), λ h. ap (λ o. is_empty (details_of_pod sanitize release_id o)) e)
      | inr (pod, e) ↦
          let full =
            ap (λ o. is_empty (details_of_pod sanitize release_id o)) e
            ∙ details_of_crashing sanitize release_id pod
                (found-find_first crashing sorted pod e) in
          (λ h. ground (arith, h, full), λ a. ground (arith, sym e ∙ j.1 (i.1 a)))
    ]

none_exists :
    {A : Type 0} (p : A → Bool) (xs : List A) → (exists p xs ≡ false) ↔ All (λ x. p x ≡ false) xs
unfolding exists
none_exists p [] = (λ h. tt, λ h. refl)
none_exists p (x ∷ xs) = ground (arith, none_exists p xs)

-- None of the pod's containers is in a crash state, the init containers included.
abbrev pub IsCalm : Pod → Type 0
IsCalm pod =
    All (λ c. is_crash_state c ≡ false) pod.init_container_statuses
    × All (λ c. is_crash_state c ≡ false) pod.container_statuses

has_any_crashing_container-IsCalm :
    (pod : Pod) → (has_any_crashing_container pod ≡ false) ↔ IsCalm pod
unfolding has_any_crashing_container
has_any_crashing_container-IsCalm pod = ground (
  arith,
  none_exists is_crash_state pod.init_container_statuses,
  none_exists is_crash_state pod.container_statuses,
)

All-IsCalm :
    (pods : List Pod) → All (λ pod. has_any_crashing_container pod ≡ false) pods ↔ All IsCalm pods
All-IsCalm [] = (λ h. h, λ h. h)
All-IsCalm (pod ∷ pods) =
    let i = has_any_crashing_container-IsCalm pod in
    let j = All-IsCalm pods in (λ (p, h). (i.0 p, j.0 h), λ (p, h). (i.1 p, j.1 h))

-- No detail is captured exactly when no container of any pod is in a crash state, init containers
-- included.
pub capture_failure_details-none :
    (sanitize : String → String) (release_id : String) (pods : List Pod)
    → (is_empty (capture_failure_details sanitize release_id pods) ≡ true) ↔ All IsCalm pods
capture_failure_details-none sanitize release_id pods =
    let i = no_details_iff sanitize release_id pods in
    let j = All-IsCalm pods in (λ h. j.0 (i.0 h), λ h. i.1 (j.1 h))

build_last_failure_detail-type :
    (sanitize : String → String) (release_id : String) (c : ContainerStatus)
    → (build_last_failure_detail sanitize release_id c).type ≡ runtime_crash
unfolding build_last_failure_detail
build_last_failure_detail-type sanitize release_id c = ground arith

abbrev holding : StackResource → List LastFailureDetail → StackResource
holding r ds = record r { status = record r.status { last_failure_details = ds } }

crash_first :
    (r : StackResource) (ds : List LastFailureDetail) (d : LastFailureDetail)
    → d.type ≡ runtime_crash
    → port_diagnosis_allowed (holding r (d ∷ ds)) ≡ false
unfolding port_diagnosis_allowed
crash_first r ds d h = ground (arith, h)

mapped_block :
    (sanitize : String → String) (release_id : String) (r : StackResource)
    (cs : List ContainerStatus)
    → is_empty (map (build_last_failure_detail sanitize release_id) cs) ≡ false
    → port_diagnosis_allowed (holding r (map (build_last_failure_detail sanitize release_id) cs))
      ≡ false
mapped_block sanitize release_id r [] h = ground (arith, h)
mapped_block sanitize release_id r (c ∷ cs) h =
    crash_first r (map (build_last_failure_detail sanitize release_id) cs)
      (build_last_failure_detail sanitize release_id c)
      (build_last_failure_detail-type sanitize release_id c)

pod_blocks :
    (sanitize : String → String) (release_id : String) (r : StackResource) (o : Option Pod)
    → is_empty (details_of_pod sanitize release_id o) ≡ false
    → port_diagnosis_allowed (holding r (details_of_pod sanitize release_id o)) ≡ false
pod_blocks sanitize release_id r none h = ground (arith, h)
pod_blocks sanitize release_id r (some pod) h = mapped_block sanitize release_id r _ h

-- A resource that holds captured details is not diagnosed by its ports: a crash is the more
-- specific failure.
pub crash_blocks_ports :
    (sanitize : String → String) (release_id : String) (pods : List Pod) (r : StackResource)
    → is_empty (capture_failure_details sanitize release_id pods) ≡ false
    → port_diagnosis_allowed (record r {
      status = record r.status {
        last_failure_details = capture_failure_details sanitize release_id pods;
      };
    })
      ≡ false
unfolding capture_failure_details
crash_blocks_ports sanitize release_id pods r h =
    pod_blocks sanitize release_id r
      (find_first has_any_crashing_container (sort_by newest_first pods)) h
