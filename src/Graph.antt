-- ===== src/Graph.antt =====
-- The depth-first check of a dependency graph: the closure `walk` of `ValidateTaskSteps`
-- (internal/core/task_steps.go) and the closure `visit` of `Validate` (runtime/workflow/graph.go).
-- They are one recursion over the maps `visiting` and `visited`; only the first refuses a
-- dependency that is listed twice, which `strict` says. The maps are the lists of their true keys.
-- The recursion takes fuel; `Graph/Total` shows that one more than the number of nodes is enough.
pub mod Order
pub mod Total
pub mod Ranked
pub mod Decide
pub mod Nodes
use blueship.Prelude.{
  ℕ, zero, suc, String, Bool, ◌&&◌, Option, none, some, List, [], ◌∷◌, if◌then◌else◌, contains,
  remove,
}

pub data Fault : Type 0 where
  cycle unknown duplicate : String → Fault

pub record Marks : Type 0 where
  pub visiting : List String
  pub visited : List String

pub data Outcome : Type 0 where
  done : Marks → Outcome
  fault : Fault → Outcome
  out_of_fuel : Outcome

abbrev pub and_then : Outcome → (Marks → Outcome) → Outcome
and_then (done m) f = f m
and_then (fault e) f = fault e
and_then out_of_fuel f = out_of_fuel

unfoldable pub enter : String → Marks → Marks
enter id m = record m { visiting = id ∷ m.visiting }

unfoldable pub leave : String → Marks → Marks
leave id m = record { visiting = remove m.visiting id; visited = id ∷ m.visited }

abbrev pub blank : Marks
blank = record { visiting = []; visited = [] }

module _ (strict : Bool) where
  -- The loop over the dependencies of one node; `seen` holds those before.
  unfoldable pub each : (String → Marks → Outcome) → List String → List String → Marks → Outcome
  each visit seen [] m = done m
  each visit seen (d ∷ ds) m =
      if strict && contains seen d
      then fault (duplicate d)
      else and_then (visit d m) (each visit (d ∷ seen) ds)

  module _ (deps : String → Option (List String)) where
    unfoldable pub walk : ℕ → String → Marks → Outcome
    walk zero id m = out_of_fuel
    walk (suc fuel) id m =
        let fresh : Outcome = elim (deps id) [
          | none ↦ fault (unknown id)
          | some ds ↦ and_then (each (walk fuel) [] ds (enter id m)) (λ m'. done (leave id m'))
        ] in
        if contains m.visiting id
        then fault (cycle id)
        else if contains m.visited id
        then done m
        else fresh

    -- The loop over all nodes.
    unfoldable pub walk_all : ℕ → List String → Marks → Outcome
    walk_all fuel [] m = done m
    walk_all fuel (id ∷ ids) m = and_then (walk fuel id m) (walk_all fuel ids)
