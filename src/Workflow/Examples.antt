-- ===== src/Workflow/Examples.antt =====
-- A workflow of three stages; the last restarts from the first.
use blueship.Prelude.{
  String, true, none, some, List, [], ◌∷◌, ◌≡◌, ◌≢◌, ◌↔◌, refl, contains, remove,
}
use blueship.Prelude.Int.{pos}
use blueship.Workflow.{
  Node, WorkflowError, retry_target, descendants, validate, collect, admit, is_taken, check_retries,
  bad_retry, pass, any_found, closure, roots,
}
use blueship.Graph.{walk_all, walk, each, enter, leave}
use blueship.Graph.Nodes.{find, deps_of}
use blueship.Workflow.Passes.{Invalidates}
use blueship.Workflow.Closure.{descendants_iff}
use blueship.Workflow.Valid.{IsWorkflow, validate_iff}
use blueship.Workflow.Ends.{validate_ends}

abbrev stage : String → List String → String → Node
stage id depends_on retry_from = record {
  id = id;
  depends_on = depends_on;
  retry_from = retry_from;
  max_attempts = pos 3;
}

abbrev pipeline : List Node
pipeline =
    stage "check" ("build" ∷ []) "draft"
    ∷ stage "build" ("draft" ∷ []) ""
    ∷ stage "draft" [] ""
    ∷ []

abbrev detached : List Node
detached = stage "check" [] "draft" ∷ stage "draft" [] "" ∷ []

pipeline_is_valid : validate pipeline ≡ none
unfolding validate collect admit is_taken find walk_all walk contains deps_of each enter leave
    remove check_retries bad_retry descendants pass any_found closure roots
pipeline_is_valid = refl

detached_is_refused : validate detached ≡ some (retry_target "check")
unfolding validate collect admit is_taken find walk_all walk contains deps_of each enter leave
    remove check_retries bad_retry descendants pass any_found closure roots
detached_is_refused = refl

validate_iff_example : (validate pipeline ≡ none) ↔ IsWorkflow pipeline
validate_iff_example = validate_iff pipeline

validate_ends_example : validate pipeline ≢ some WorkflowError.out_of_fuel
validate_ends_example = validate_ends pipeline

descendants_iff_example :
    (r : List String) × (descendants pipeline "draft" ≡ some r)
    × ((x : String) → (contains r x ≡ true) ↔ Invalidates pipeline "draft" x)
descendants_iff_example = descendants_iff pipeline "draft"
