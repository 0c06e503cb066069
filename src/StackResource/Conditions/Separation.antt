-- ===== src/StackResource/Conditions/Separation.antt =====
-- A write of one condition and what the readers see of the others.
use cluster_agent.Prelude.{String, ◌≡◌, refl, Bool, false, Option, some, str_eq, if◌then◌else◌}
use cluster_agent.Api.Meta.{Condition, ConditionOps, status_of_bool}
use cluster_agent.Api.StackResource.{
  StackResource, DomainCondition, StatusCondition, domain_text, status_text, tls_configured,
  status_available, stalled, converged,
}
use cluster_agent.StackResource.Conditions.{set_summary_condition, set_resource_condition}

-- The text of a summary condition is that of no domain condition.
pub texts_differ :
    (t : StatusCondition) (d : DomainCondition) → str_eq (status_text t) (domain_text d) ≡ false
texts_differ status_available tls_configured = refl
texts_differ status_available _ = refl
texts_differ stalled tls_configured = refl
texts_differ stalled _ = refl
texts_differ converged tls_configured = refl
texts_differ converged _ = refl

domain_texts_differ :
    (t : StatusCondition) (d : DomainCondition) → str_eq (domain_text d) (status_text t) ≡ false
domain_texts_differ status_available tls_configured = refl
domain_texts_differ status_available _ = refl
domain_texts_differ stalled tls_configured = refl
domain_texts_differ stalled _ = refl
domain_texts_differ converged tls_configured = refl
domain_texts_differ converged _ = refl

module _ ⦃ops : ConditionOps⦄ where
  -- What a reader finds of a domain condition and of a summary condition.
  abbrev pub domain_of : StackResource → DomainCondition → Option Condition
  domain_of r d = ops.find_condition r.status.conditions (domain_text d)

  abbrev pub summary_of : StackResource → StatusCondition → Option Condition
  summary_of r t = ops.find_condition r.status.conditions (status_text t)

  pub domain-set_summary :
      (r : StackResource) (t : StatusCondition) (s : Bool) (reason msg : String)
      (d : DomainCondition)
      → domain_of (set_summary_condition r t s reason msg) d ≡ domain_of r d
  unfolding set_summary_condition
  domain-set_summary r t s reason msg d = rw (ops.find-set, texts_differ t d)

  pub summary-set_summary :
      (r : StackResource) (t u : StatusCondition) (s : Bool) (reason msg : String)
      → summary_of (set_summary_condition r t s reason msg) u ≡ (
          if str_eq (status_text t) (status_text u)
          then some (record {
            type = status_text t;
            status = status_of_bool s;
            observed_generation = r.metadata.generation;
            reason = reason;
            message = msg;
          })
          else summary_of r u)
  unfolding set_summary_condition
  summary-set_summary r t u s reason msg = rw ops.find-set

  pub summary-set_resource :
      (r : StackResource) (d : DomainCondition) (s : Bool) (reason msg : String)
      (t : StatusCondition)
      → summary_of (set_resource_condition r d s reason msg) t ≡ summary_of r t
  unfolding set_resource_condition
  summary-set_resource r d s reason msg t = rw (ops.find-set, domain_texts_differ t d)

  pub domain-set_resource :
      (r : StackResource) (d e : DomainCondition) (s : Bool) (reason msg : String)
      → domain_of (set_resource_condition r d s reason msg) e ≡ (
          if str_eq (domain_text d) (domain_text e)
          then some (record {
            type = domain_text d;
            status = status_of_bool s;
            observed_generation = r.metadata.generation;
            reason = reason;
            message = msg;
          })
          else domain_of r e)
  unfolding set_resource_condition
  domain-set_resource r d e s reason msg = rw ops.find-set
