-- ===== src/Stack/Children/Converged.antt =====
-- What it takes for a child of a Stack to count as converged.
use cluster_agent.Prelude.{
  String, ◌≡◌, ◌≢◌, ◌↔◌, ◌⊎◌, inl, inr, Bool, true, some, List, [], ◌∷◌, All, Map, lookup, arith,
  eq_iff, Option-cases, Bool-cases,
}
use cluster_agent.Api.Meta.{Condition, ConditionOps, cond_true}
use cluster_agent.Api.StackResource.{StackResource, StatusCondition, status_text}
use cluster_agent.Stack.Children.{
  find_status_condition, current_child_conditions, counts_as_converged, is_true, revision_of,
  release_of,
}
use cluster_agent.Stack.Children.Counts.{of_child, converged_child}

module _ ⦃ops : ConditionOps⦄ (managed : Bool) (release_id : String) where
  -- The revision that the child has observed is the one that it carries, and its release is the one
  -- that is wanted, if any is.
  pub record IsCurrent (child : StackResource) : Type 0 where
    pub has_revision : revision_of child ≢ ""
    pub observed_own : child.status.observed_revision ≡ revision_of child
    pub same_release : (release_id ≡ "") ⊎ (release_of child ≡ release_id)

  -- Converged is True at the generation of the child, which on a managed Stack is current.
  pub record IsConverged (child : StackResource) : Type 0 where
    pub condition : Condition
    pub found :
        ops.find_condition child.status.conditions (status_text StatusCondition.converged)
        ≡ some condition
    pub at_generation : condition.observed_generation ≡ child.metadata.generation
    pub true_now : condition.status ≡ cond_true
    pub current : managed ≡ true → IsCurrent child

  abbrev converged_now : StackResource → Bool
  converged_now child = is_true (current_child_conditions child).converged

  now_means :
      (child : StackResource)
      → converged_now child ≡ true
      → (c : Condition) × (ops.find_condition child.status.conditions
            (status_text StatusCondition.converged)
          ≡ some c)
        × (c.observed_generation ≡ child.metadata.generation)
        × (c.status ≡ cond_true)
  unfolding current_child_conditions find_status_condition
  now_means child h =
      elim (Option-cases
        (ops.find_condition child.status.conditions (status_text StatusCondition.converged))) [
          | inl e ↦ ground (arith, e, h)
          | inr (c, e) ↦ (c, e, ground (arith, e, h), ground (arith, e, h))
        ]

  now_of :
      (child : StackResource) (c : Condition)
      → ops.find_condition child.status.conditions (status_text StatusCondition.converged) ≡ some c
      → c.observed_generation ≡ child.metadata.generation
      → c.status ≡ cond_true
      → converged_now child ≡ true
  unfolding current_child_conditions find_status_condition
  now_of child c e g t = ground (arith, e, g, t)

  counted :
      (child : StackResource)
      → converged_child managed release_id child ≡ true
      → (converged_now child ≡ true) × (managed ≡ true → IsCurrent child)
  unfolding counts_as_converged
  counted child h = (
    ground (arith, h),
    λ m. record {
      has_revision = λ q. ground (arith, h, m, q, eq_iff (revision_of child) "");
      observed_own =
          ground (arith, h, m, eq_iff child.status.observed_revision (revision_of child));
      same_release =
          ground (arith, h, m, eq_iff release_id "", eq_iff (release_of child) release_id);
    },
  )

  counts :
      (child : StackResource)
      → converged_now child ≡ true
      → (managed ≡ true → IsCurrent child)
      → converged_child managed release_id child ≡ true
  unfolding counts_as_converged
  counts child now current = elim (Bool-cases managed) [
    | inl m ↦
        let i = current m in
        ground (
          arith,
          m,
          now,
          i.has_revision,
          i.observed_own,
          i.same_release,
          eq_iff (revision_of child) "",
          eq_iff child.status.observed_revision (revision_of child),
          eq_iff release_id "",
          eq_iff (release_of child) release_id,
        )
    | inr m ↦ ground (arith, m, now)
  ]

  converged_child-IsConverged :
      (child : StackResource)
      → (converged_child managed release_id child ≡ true) ↔ IsConverged child
  converged_child-IsConverged child = (
    λ h.
        let (now, current) = counted child h in
        let (c, e, g, t) = now_means child now in
        record { condition = c; found = e; at_generation = g; true_now = t; current = current },
    λ i. counts child (now_of child i.condition i.found i.at_generation i.true_now) i.current,
  )

  -- The name stands for a child that has converged.
  abbrev pub HasConverged : Map StackResource → String → Type 0
  HasConverged m name = (child : StackResource) × (lookup m name ≡ some child) × IsConverged child

  of_child-HasConverged :
      (m : Map StackResource) (name : String)
      → (of_child m (converged_child managed release_id) name ≡ true) ↔ HasConverged m name
  of_child-HasConverged m name = elim (Option-cases (lookup m name)) [
    | inl e ↦ (λ h. ground (arith, e, h), λ (child, f, i). ground (arith, e, f))
    | inr (child, e) ↦ (
      λ h. (child, e, (converged_child-IsConverged child).0 (ground (arith, e, h))),
      λ (other, f, i). let c = (converged_child-IsConverged other).1 i in ground (arith, f, c),
    )
  ]

  pub All-HasConverged :
      (m : Map StackResource) (names : List String)
      → All (λ name. of_child m (converged_child managed release_id) name ≡ true) names
        ↔ All (HasConverged m) names
  All-HasConverged m [] = (λ h. h, λ h. h)
  All-HasConverged m (name ∷ names) =
      let i = of_child-HasConverged m name in
      let j = All-HasConverged m names in (λ (p, h). (i.0 p, j.0 h), λ (p, h). (i.1 p, j.1 h))
