-- ===== src/Workflow.antt =====
-- Durable execution graphs (runtime/workflow/graph.go): `Validate` and `Descendants`. The maps
-- `found`, `visiting` and `visited` are the lists of their true keys. The loop of `Descendants` takes
-- fuel; it adds a stage in every round but the last, so one round more than there are stages is enough.
pub mod Passes
pub mod Closure
pub mod Valid
pub mod Ends
mod Examples
use blueship.Prelude.Int.{ℤ, lt_nat, nat_lt}
use blueship.Prelude.{
  ℕ, zero, suc, String, Bool, true, false, not, ◌&&◌, ◌||◌, Option, none, some, List, [], ◌∷◌, ◌++◌,
  ◌==◌, ltb, if◌then◌else◌, length, str_eq, contains,
}
use blueship.Graph
use blueship.Graph.Nodes.{find, deps_of, ids}
use blueship.Graph.{Fault, Outcome, blank, walk_all}

pub record Node : Type 0 where
  pub id : String
  pub depends_on : List String
  pub retry_from : String
  pub max_attempts : ℤ

pub data WorkflowError : Type 0 where
  stage_count bad_id : WorkflowError
  attempts retry_target : String → WorkflowError
  graph_fault : Fault → WorkflowError
  out_of_fuel : WorkflowError

abbrev pub key : Node → String
key n = n.id

abbrev pub inputs : Node → List String
inputs n = n.depends_on

-- Whether some dependency was found: the inner loop with its `break`.
unfoldable pub any_found : List String → List String → Bool
any_found found [] = false
any_found found (d ∷ ds) = contains found d || any_found found ds

-- One pass over the stages; the flag is `changed`.
unfoldable pub pass : List Node → List String → List String × Bool
pass [] found = (found, false)
pass (n ∷ ns) found =
    let fresh = not (contains found n.id) && any_found found n.depends_on in
    let (found', changed) = pass ns (if fresh then n.id ∷ found else found) in
    (found', fresh || changed)

unfoldable pub closure : ℕ → List Node → List String → Option (List String)
closure zero nodes found = none
closure (suc fuel) nodes found =
    let (found', changed) = pass nodes found in
    let rest = closure fuel nodes found' in if changed then rest else some found'

-- The first loop of `Descendants`.
unfoldable pub roots : List Node → String → List String
roots [] root = []
roots (n ∷ ns) root = if str_eq n.id root then root ∷ roots ns root else roots ns root

-- `none` is an exhausted fuel.
unfoldable pub descendants : List Node → String → Option (List String)
unfolding closure roots
descendants nodes root = closure (suc (length nodes)) nodes (roots nodes root)

-- `byID[n.ID].ID != ""`, with the zero `Node` for a missing key.
unfoldable pub is_taken : List Node → String → Bool
is_taken by_id k = elim (find key by_id k) [ none ↦ false | some m ↦ not (str_eq m.id "") ]

-- The body of the first loop of `Validate`.
unfoldable pub admit : List Node → Node → Option WorkflowError
admit by_id n =
    if str_eq n.id "" || is_taken by_id n.id
    then some bad_id
    else if lt_nat n.max_attempts 1 || nat_lt 100 n.max_attempts
    then some (attempts n.id)
    else none

pub data Checked : Type 0 where
  ok : List Node → Checked
  err : WorkflowError → Checked

unfoldable pub collect : List Node → List Node → Checked
collect by_id [] = ok by_id
collect by_id (n ∷ ns) = elim (admit by_id n) [
  | some e ↦ err e
  | none ↦ collect (by_id ++ n ∷ []) ns
]

-- The test of the last loop on one stage.
unfoldable pub bad_retry : List Node → Node → Option WorkflowError
bad_retry nodes n = if str_eq n.retry_from "" then none else elim (descendants nodes n.retry_from) [
  | none ↦ some out_of_fuel
  | some found ↦ if contains found n.id then none else some (retry_target n.id)
]

unfoldable pub check_retries : List Node → List Node → Option WorkflowError
check_retries nodes [] = none
check_retries nodes (n ∷ ns) = elim (bad_retry nodes n) [
  | some e ↦ some e
  | none ↦ check_retries nodes ns
]

abbrev pub of_walk : Outcome → Option WorkflowError → Option WorkflowError
of_walk (Graph.done m) rest = rest
of_walk (Graph.fault f) rest = some (graph_fault f)
of_walk Graph.out_of_fuel rest = some out_of_fuel

-- `none` is the nil error.
unfoldable pub validate : List Node → Option WorkflowError
validate nodes =
    if length nodes == 0 || ltb 100 (length nodes)
    then some stage_count
    else elim (collect [] nodes) [
      | err e ↦ some e
      | ok by_id ↦
          of_walk
            (walk_all false (deps_of key inputs by_id) (suc (length nodes)) (ids key nodes) blank)
            (check_retries nodes nodes)
    ]
