-- ===== src/TaskSteps.antt =====
-- The plan of a graph task (internal/core/task_steps.go): `ValidateTaskSteps`.
-- The range over the map `byID` takes its keys in an order that Go does not fix: `keys`.
pub mod Fields
pub mod Plan
mod Examples
use Prim.Native.String.{len}
use blueship.Prelude.Int.{ℤ, lt_nat, nat_lt}
use blueship.Prelude.{
  suc, String, Bool, true, false, not, ◌||◌, Option, none, some, List, [], ◌∷◌, ◌++◌, ◌==◌, ltb,
  if◌then◌else◌, length, str_eq, is_blank,
}
use blueship.Graph
use blueship.Graph.Nodes.{find, deps_of}
use blueship.Graph.{Fault, Outcome, blank, walk_all}

-- The fields that a planner fills in; the rest of the row is in `StepStore`.
pub record TaskStep : Type 0 where
  pub id : String
  pub goal : String
  pub acceptance : String
  pub kind : String
  pub dependencies : List String
  pub max_attempts : ℤ
  pub estimated_ms : Option ℤ
  pub tools : List String

pub data PlanError : Type 0 where
  plan_size missing_field duplicate_step invalid_kind attempt_budget time_estimate : PlanError
  graph_fault : Fault → PlanError
  out_of_fuel : PlanError

pub data Checked : Type 0 where
  ok : List TaskStep → Checked
  err : PlanError → Checked

abbrev pub key : TaskStep → String
key s = s.id

abbrev pub inputs : TaskStep → List String
inputs s = s.dependencies

unfoldable pub is_kind : String → Bool
is_kind k = str_eq k "read" || str_eq k "action" || str_eq k "finalize"

unfoldable pub has_bad_estimate : Option ℤ → Bool
has_bad_estimate none = false
has_bad_estimate (some ms) = lt_nat ms 1

unfoldable pub lacks_field : TaskStep → Bool
lacks_field s = str_eq s.id "" || ltb 80 (len s.id) || is_blank s.goal || is_blank s.acceptance

-- The body of the first loop; the map is the list of the steps put into it.
unfoldable pub admit : List TaskStep → TaskStep → Option PlanError
admit by_id s = if lacks_field s then some missing_field else elim (find key by_id s.id) [
  | some _ ↦ some duplicate_step
  | none ↦
      if not (is_kind s.kind)
      then some invalid_kind
      else if lt_nat s.max_attempts 0 || nat_lt 10 s.max_attempts
      then some attempt_budget
      else if has_bad_estimate s.estimated_ms
      then some time_estimate
      else none
]

unfoldable pub collect : List TaskStep → List TaskStep → Checked
collect by_id [] = ok by_id
collect by_id (s ∷ ss) = elim (admit by_id s) [
  | some e ↦ err e
  | none ↦ collect (by_id ++ s ∷ []) ss
]

abbrev pub of_walk : Outcome → Option PlanError
of_walk (Graph.done m) = none
of_walk (Graph.fault f) = some (graph_fault f)
of_walk Graph.out_of_fuel = some out_of_fuel

-- `none` is the nil error.
unfoldable pub validate_task_steps : (keys : List String) → List TaskStep → Option PlanError
unfolding collect
validate_task_steps keys steps =
    if length steps == 0 || ltb 64 (length steps) then some plan_size else elim (collect [] steps) [
      | err e ↦ some e
      | ok by_id ↦ of_walk (walk_all true (deps_of key inputs by_id) (suc (length keys)) keys blank)
    ]
