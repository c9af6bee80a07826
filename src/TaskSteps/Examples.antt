-- ===== src/TaskSteps/Examples.antt =====
-- A plan of two steps: research, and a final report that depends on it.
use blueship.Prelude.{
  String, none, some, List, [], ◌∷◌, ◌≡◌, ◌≢◌, ◌↔◌, refl, is_blank, contains, remove,
}
use blueship.Prelude.Int.{pos}
use blueship.TaskSteps.{
  TaskStep, PlanError, graph_fault, validate_task_steps, admit, lacks_field, is_kind,
  has_bad_estimate,
}
use blueship.TaskSteps.Plan.{IsPlan, IsRange, validate_task_steps_iff, validate_task_steps_ends}
use blueship.Graph.{cycle, walk_all, walk, each, enter, leave}
use blueship.Graph.Nodes.{find, deps_of}

abbrev research : TaskStep
research = record {
  id = "research";
  goal = "collect sources";
  acceptance = "three sources";
  kind = "read";
  dependencies = [];
  max_attempts = pos 3;
  estimated_ms = none;
  tools = "web_search" ∷ [];
}

abbrev report : TaskStep
report = record {
  id = "report";
  goal = "write the report";
  acceptance = "every claim has a source";
  kind = "finalize";
  dependencies = "research" ∷ [];
  max_attempts = pos 2;
  estimated_ms = some (pos 60000);
  tools = [];
}

abbrev plan : List TaskStep
plan = report ∷ research ∷ []

abbrev plan_keys : List String
plan_keys = "report" ∷ "research" ∷ []

plan-IsRange : IsRange plan_keys plan
plan-IsRange k = refl

abbrev looped : List TaskStep
looped = report ∷ (record research { dependencies = "report" ∷ [] }) ∷ []

plan_is_valid : validate_task_steps plan_keys plan ≡ none
unfolding validate_task_steps admit lacks_field is_blank find is_kind has_bad_estimate walk_all walk
    contains deps_of each enter leave remove
plan_is_valid = refl

loop_is_found : validate_task_steps plan_keys looped ≡ some (graph_fault (cycle "report"))
unfolding validate_task_steps admit lacks_field is_blank find is_kind has_bad_estimate walk_all walk
    contains deps_of each enter leave remove
loop_is_found = refl

validate_task_steps_iff_example : (validate_task_steps plan_keys plan ≡ none) ↔ IsPlan plan
validate_task_steps_iff_example = validate_task_steps_iff plan_keys plan plan-IsRange

validate_task_steps_ends_example : validate_task_steps plan_keys looped ≢ some PlanError.out_of_fuel
validate_task_steps_ends_example = validate_task_steps_ends plan_keys looped (λ k. refl)
