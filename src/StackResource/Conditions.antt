-- ===== src/StackResource/Conditions.antt =====
-- The conditions of a StackResource: the writers of internal/controller/stackresource
-- (status_derive.go, stackresource_controller.go) and the readers that drop stale ones.
pub mod Separation
use cluster_agent.Prelude.{
  String, Bool, true, false, Option, some, none, ◌==◌, ◌&&◌, if◌then◌else◌, is_some,
}
use cluster_agent.Api.Meta.{
  Condition, ConditionOps, ConditionStatus, cond_true, cond_false, cond_unknown, is_cond_true,
  status_of_bool,
}
use cluster_agent.Api.StackResource.{
  StackResource, DomainCondition, StatusCondition, domain_text, status_text, status_available,
}

-- `a == b` on condition states.
abbrev pub same_status : ConditionStatus → ConditionStatus → Bool
same_status cond_true cond_true = true
same_status cond_false cond_false = true
same_status cond_unknown cond_unknown = true
same_status _ _ = false

module _ ⦃ops : ConditionOps⦄ where
  -- setSummaryCondition
  unfoldable pub set_summary_condition :
      StackResource → StatusCondition → Bool → String → String → StackResource
  set_summary_condition resource cond_type status reason msg = record resource {
    status = record resource.status {
      conditions = ops.set_condition resource.status.conditions (record {
        type = status_text cond_type;
        status = status_of_bool status;
        observed_generation = resource.metadata.generation;
        reason = reason;
        message = msg;
      });
    };
  }

  -- setResourceCondition: what SetCondition of the status reporter does
  unfoldable pub set_resource_condition :
      StackResource → DomainCondition → Bool → String → String → StackResource
  set_resource_condition resource cond_type ready reason msg = record resource {
    status = record resource.status {
      conditions = ops.set_condition resource.status.conditions (record {
        type = domain_text cond_type;
        status = status_of_bool ready;
        observed_generation = resource.metadata.generation;
        reason = reason;
        message = msg;
      });
    };
  }

  -- domainConditionText
  unfoldable pub domain_condition_text :
      StackResource → DomainCondition → String → String → Bool × String × String
  domain_condition_text resource cond_type false_reason false_msg =
      elim (ops.find_condition resource.status.conditions (domain_text cond_type)) [
        | none ↦ (false, false_reason, false_msg)
        | some c ↦
            if c.observed_generation == resource.metadata.generation
            then (is_cond_true c.status, c.reason, c.message)
            else (false, false_reason, false_msg)
      ]

  -- domainCondition
  unfoldable pub domain_condition :
      StackResource → DomainCondition → ConditionStatus → Option Condition
  domain_condition resource cond_type status =
      elim (ops.find_condition resource.status.conditions (domain_text cond_type)) [
        | none ↦ none
        | some c ↦
            if same_status c.status status && c.observed_generation == resource.metadata.generation
            then some c
            else none
      ]

  -- domainConditionTrue
  unfoldable pub domain_condition_true : StackResource → DomainCondition → Bool
  unfolding domain_condition
  domain_condition_true resource cond_type = is_some (domain_condition resource cond_type cond_true)

  -- stackResourceAvailable
  unfoldable pub stack_resource_available : StackResource → Bool
  stack_resource_available resource =
      elim (ops.find_condition resource.status.conditions (status_text status_available)) [
        | none ↦ false
        | some c ↦ is_cond_true c.status && c.observed_generation == resource.metadata.generation
      ]
