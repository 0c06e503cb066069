-- ===== src/Api/Meta.antt =====
-- Object metadata and status conditions, as the controllers use them.
-- A condition's LastTransitionTime is left out: no controller reads it back from these
-- conditions, and the status hashes clear it.
pub mod Listed
use cluster_agent.Prelude.{
  ℕ, String, ◌≡◌, refl, arith, Bool, true, false, Option, some, none, List, Map, str_eq,
  if◌then◌else◌, ◌*◌,
}

pub data ConditionStatus : Type 0 where
  cond_true cond_false cond_unknown : ConditionStatus

-- `status == metav1.ConditionTrue`
abbrev pub is_cond_true : ConditionStatus → Bool
is_cond_true cond_true = true
is_cond_true _ = false

abbrev pub is_cond_false : ConditionStatus → Bool
is_cond_false cond_false = true
is_cond_false _ = false

abbrev pub status_of_bool : Bool → ConditionStatus
status_of_bool true = cond_true
status_of_bool false = cond_false

pub record Condition : Type 0 where
  pub type : String
  pub status : ConditionStatus
  pub observed_generation : ℕ
  pub reason : String
  pub message : String

-- k8s.io/apimachinery/pkg/api/meta: FindStatusCondition, SetStatusCondition and
-- RemoveStatusCondition, with their documented behaviour. A set replaces the condition of that
-- type in place or appends it, and leaves the conditions of every other type alone.
pub record ConditionOps : Type 0 where
  pub find_condition : List Condition → String → Option Condition
  pub set_condition : List Condition → Condition → List Condition
  pub remove_condition : List Condition → String → List Condition
  pub find-set :
      (cs : List Condition) (c : Condition) (t : String)
      → find_condition (set_condition cs c) t
        ≡ (if str_eq c.type t then some c else find_condition cs t)
  pub find-remove :
      (cs : List Condition) (s t : String)
      → find_condition (remove_condition cs s) t
        ≡ (if str_eq s t then none else find_condition cs t)

module _ ⦃ops : ConditionOps⦄ where
  -- meta.IsStatusConditionTrue
  unfoldable pub is_condition_true : List Condition → String → Bool
  is_condition_true cs type = elim (ops.find_condition cs type) [
    | none ↦ false
    | some c ↦ is_cond_true c.status
  ]

  pub is_condition_true-set :
      (cs : List Condition) (c : Condition) (type : String)
      → is_condition_true (ops.set_condition cs c) type
        ≡ (if str_eq c.type type then is_cond_true c.status else is_condition_true cs type)
  unfolding is_condition_true
  is_condition_true-set cs c type = ground (arith, ops.find-set cs c type)

-- Points in time and durations, in nanoseconds.
abbrev pub Time : Type 0
Time = ℕ

abbrev pub Duration : Type 0
Duration = ℕ

abbrev pub second : Duration
second = 1000000000

abbrev pub minute : Duration
minute = 60 * second

-- ReleaseIDAnnotation
abbrev pub release_id_annotation : String
release_id_annotation = "core.stackdome.io/release-id"

pub record ObjectMeta : Type 0 where
  pub name : String
  pub namespace : String
  pub uid : String
  pub generation : ℕ
  pub labels : Map String
  pub annotations : Map String

-- corev1.SecretReference
pub record SecretReference : Type 0 where
  pub name : String
  pub namespace : String

-- corev1.SecretKeySelector
pub record SecretKeySelector : Type 0 where
  pub name : String
  pub key : String
