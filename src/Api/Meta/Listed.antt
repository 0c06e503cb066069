-- ===== src/Api/Meta/Listed.antt =====
-- A concrete list of conditions: it shows that the documented behaviour can be met.
use cluster_agent.Prelude.{
  String, ◌≡◌, refl, Option, some, none, List, [], ◌∷◌, str_eq, eq_iff, arith, if◌then◌else◌,
}
use cluster_agent.Api.Meta.{Condition, ConditionOps}

find_listed : List Condition → String → Option Condition
find_listed [] t = none
find_listed (c ∷ cs) t = if str_eq c.type t then some c else find_listed cs t

set_listed : List Condition → Condition → List Condition
set_listed [] c = c ∷ []
set_listed (d ∷ cs) c = if str_eq d.type c.type then c ∷ cs else d ∷ set_listed cs c

remove_listed : List Condition → String → List Condition
remove_listed [] t = []
remove_listed (c ∷ cs) t =
    let rest = remove_listed cs t in if str_eq c.type t then rest else c ∷ rest

find-set_listed :
    (cs : List Condition) (c : Condition) (t : String)
    → find_listed (set_listed cs c) t ≡ (if str_eq c.type t then some c else find_listed cs t)
unfolding find_listed set_listed
find-set_listed [] c t = refl
find-set_listed (d ∷ cs) c t =
    ground (arith, eq_iff d.type c.type, eq_iff d.type t, eq_iff c.type t, find-set_listed cs c t)

find-remove_listed :
    (cs : List Condition) (s t : String)
    → find_listed (remove_listed cs s) t ≡ (if str_eq s t then none else find_listed cs t)
unfolding find_listed remove_listed
find-remove_listed [] s t = ground arith
find-remove_listed (c ∷ cs) s t =
    ground (arith, eq_iff c.type s, eq_iff c.type t, eq_iff s t, find-remove_listed cs s t)

-- Opening this opens the functions that it is made of, so that tests run.
unfoldable pub listed : ConditionOps
unfolding find_listed set_listed remove_listed find-set_listed find-remove_listed
listed = record {
  find_condition = find_listed;
  set_condition = set_listed;
  remove_condition = remove_listed;
  find-set = find-set_listed;
  find-remove = find-remove_listed;
}
