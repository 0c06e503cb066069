-- ===== src/Stack/Children/Counts.antt =====
-- The counts and lists of one pass, each against its own account over the desired names.
use cluster_agent.Prelude.{
  ℕ, ◌+◌, String, ◌≡◌, refl, Bool, true, false, not, Option, some, none, List, [], ◌∷◌, ◌++◌, ◌∙◌,
  sym, ap, sort_texts, Map, lookup, length, count_where, keep, is_some, arith, if◌then◌else◌,
}
use mathlib.Core.List.{append_assoc, append-nil}
use cluster_agent.Api.Meta.{ConditionOps}
use cluster_agent.Api.Stack.{Stack}
use cluster_agent.Api.StackResource.{StackResource}
use cluster_agent.Stack.Children.{
  ChildStats, ChildConditions, current_child_conditions, counts_as_converged, child_convergence,
  is_true, visit, visit_all, bump_if, append_if, map_children, initial_stats, collect_child_stats,
}

-- What a test says of the child that a name stands for; no child, no.
abbrev pub holds_for : (StackResource → Bool) → Option StackResource → Bool
holds_for test none = false
holds_for test (some child) = test child

abbrev pub of_child : Map StackResource → (StackResource → Bool) → String → Bool
of_child m test name = holds_for test (lookup m name)

-- The name stands for no child, and for a child that fails the test.
abbrev pub no_child : Map StackResource → String → Bool
no_child m name = not (is_some (lookup m name))

-- The children of a Stack, by name.
abbrev pub by_name : List StackResource → Map StackResource
by_name children = map_children [] children

module _ ⦃ops : ConditionOps⦄ where
  abbrev pub converged_child : Bool → String → StackResource → Bool
  converged_child managed release_id child =
      counts_as_converged child (current_child_conditions child) managed release_id

  abbrev pub available_child : StackResource → Bool
  available_child child = is_true (current_child_conditions child).available

  abbrev pub unavailable_child : StackResource → Bool
  unavailable_child child = not (is_true (current_child_conditions child).available)

  abbrev pub stalled_child : StackResource → Bool
  stalled_child child = is_true (current_child_conditions child).stalled

  -- The Boolean half of `child_convergence` is `counts_as_converged`.
  pub child_convergence_fst :
      (child : StackResource) (conds : ChildConditions) (managed : Bool) (release_id : String)
      → (child_convergence child conds managed release_id).0
        ≡ counts_as_converged child conds managed release_id
  unfolding child_convergence
  child_convergence_fst child conds managed release_id = ground arith

  module _ (managed : Bool) (release_id : String) where
    converged_count-visit :
        (stats : ChildStats) (name : String) (o : Option StackResource)
        → (visit managed release_id stats name o).converged_count
          ≡ bump_if (holds_for (converged_child managed release_id) o) stats.converged_count
    unfolding visit
    converged_count-visit stats name none = refl
    converged_count-visit stats name (some child) =
        rw (child_convergence_fst child (current_child_conditions child) managed release_id)

    available_count-visit :
        (stats : ChildStats) (name : String) (o : Option StackResource)
        → (visit managed release_id stats name o).available_count
          ≡ bump_if (holds_for available_child o) stats.available_count
    unfolding visit
    available_count-visit stats name none = refl
    available_count-visit stats name (some child) = refl

    missing-visit :
        (stats : ChildStats) (name : String) (o : Option StackResource)
        → (visit managed release_id stats name o).missing
          ≡ append_if (not (is_some o)) stats.missing name
    unfolding visit
    missing-visit stats name none = refl
    missing-visit stats name (some child) = refl

    not_serving-visit :
        (stats : ChildStats) (name : String) (o : Option StackResource)
        → (visit managed release_id stats name o).not_serving
          ≡ append_if (holds_for unavailable_child o) stats.not_serving name
    unfolding visit
    not_serving-visit stats name none = refl
    not_serving-visit stats name (some child) = refl

    stalled-visit :
        (stats : ChildStats) (name : String) (o : Option StackResource)
        → (visit managed release_id stats name o).stalled
          ≡ append_if (holds_for stalled_child o) stats.stalled name
    unfolding visit
    stalled-visit stats name none = refl
    stalled-visit stats name (some child) = refl

    desired_count-visit :
        (stats : ChildStats) (name : String) (o : Option StackResource)
        → (visit managed release_id stats name o).desired_count ≡ stats.desired_count
    unfolding visit
    desired_count-visit stats name none = refl
    desired_count-visit stats name (some child) = refl

  append_if-append :
      (b : Bool) (before : List String) (name : String) (after : List String)
      → append_if b before name ++ after ≡ before ++ (if b then name ∷ after else after)
  append_if-append true before name after = append_assoc before (name ∷ []) after
  append_if-append false before name after = refl

  module _ (managed : Bool) (release_id : String) (m : Map StackResource) where
    -- A field that a round bumps, or appends to, exactly when the test holds of the name.
    count_loop :
        (f : ChildStats → ℕ) (p : String → Bool)
        → ((stats : ChildStats) (name : String)
            → f (visit managed release_id stats name (lookup m name)) ≡ bump_if (p name) (f stats))
        → (stats : ChildStats) (names : List String)
        → f (visit_all managed release_id m stats names) ≡ f stats + count_where p names
    unfolding visit_all count_where
    count_loop f p step stats [] = omega arith
    count_loop f p step stats (name ∷ names) =
        count_loop f p step (visit managed release_id stats name (lookup m name)) names
        ∙ rw (step stats name) (ground arith)

    list_loop :
        (f : ChildStats → List String) (p : String → Bool)
        → ((stats : ChildStats) (name : String)
            → f (visit managed release_id stats name (lookup m name))
              ≡ append_if (p name) (f stats) name)
        → (stats : ChildStats) (names : List String)
        → f (visit_all managed release_id m stats names) ≡ f stats ++ keep p names
    unfolding visit_all keep
    list_loop f p step stats [] = sym (append-nil (f stats))
    list_loop f p step stats (name ∷ names) =
        list_loop f p step (visit managed release_id stats name (lookup m name)) names
        ∙ rw (step stats name) (append_if-append (p name) (f stats) name (keep p names))

    desired_count-visit_all :
        (stats : ChildStats) (names : List String)
        → (visit_all managed release_id m stats names).desired_count ≡ stats.desired_count
    unfolding visit_all
    desired_count-visit_all stats [] = refl
    desired_count-visit_all stats (name ∷ names) =
        desired_count-visit_all (visit managed release_id stats name (lookup m name)) names
        ∙ desired_count-visit managed release_id stats name (lookup m name)

  module _ (stack : Stack) (children : List StackResource) (managed : Bool)
      (release_id : String) where
    abbrev names : List String
    names = stack.spec.resource_names

    abbrev collected : ChildStats
    collected = collect_child_stats stack children managed release_id

    -- Every count and list of `collect_child_stats`, as counted over the desired names.
    pub record Counted : Type 0 where
      pub desired_is : collected.desired_count ≡ length names
      pub converged_is :
          collected.converged_count
          ≡ count_where (of_child (by_name children) (converged_child managed release_id)) names
      pub available_is :
          collected.available_count
          ≡ count_where (of_child (by_name children) available_child) names
      pub missing_is : collected.missing ≡ sort_texts (keep (no_child (by_name children)) names)
      pub not_serving_is :
          collected.not_serving
          ≡ sort_texts (keep (of_child (by_name children) unavailable_child) names)
      pub stalled_is :
          collected.stalled ≡ sort_texts (keep (of_child (by_name children) stalled_child) names)

    pub collect_child_stats-Counted : Counted
    unfolding collect_child_stats initial_stats
    collect_child_stats-Counted =
        let m = by_name children in
        let start = initial_stats names in
        record {
          desired_is = desired_count-visit_all managed release_id m start names;
          converged_is =
              count_loop managed release_id m (λ s. s.converged_count)
                (of_child m (converged_child managed release_id))
                (λ s n. converged_count-visit managed release_id s n (lookup m n)) start names
              ∙ omega arith;
          available_is =
              count_loop managed release_id m (λ s. s.available_count) (of_child m available_child)
                (λ s n. available_count-visit managed release_id s n (lookup m n)) start names
              ∙ omega arith;
          missing_is = ap sort_texts (
              list_loop managed release_id m (λ s. s.missing) (no_child m)
                (λ s n. missing-visit managed release_id s n (lookup m n)) start names);
          not_serving_is = ap sort_texts (
              list_loop managed release_id m (λ s. s.not_serving) (of_child m unavailable_child)
                (λ s n. not_serving-visit managed release_id s n (lookup m n)) start names);
          stalled_is = ap sort_texts (
              list_loop managed release_id m (λ s. s.stalled) (of_child m stalled_child)
                (λ s n. stalled-visit managed release_id s n (lookup m n)) start names);
        }
