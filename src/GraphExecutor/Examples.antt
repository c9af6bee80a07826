-- ===== src/GraphExecutor/Examples.antt =====
-- Witnesses for the theorems about the executor: a plan of two reads, and one that is finished.
use blueship.StepStore.{
  Kind, Status, Row, Db, TaskStatus, absent, find_row, is_pending, is_done, is_read, is_finalize,
}
use blueship.StepStore.Ops.{
  claim_task_step, lock_task_execution, claimable, none_conflicts, all_done,
}
use blueship.StepStore.Safety.{IsNew}
use blueship.GraphExecutor.{
  valid_executor, GraphExecutor, new_loop, all_steps_done, consider, claimed, start_worker,
  dependency_inputs, expired, is_running_id,
}
use blueship.GraphExecutor.Steps.{
  Place, State, Run, begins, goes, reads, looks, read_steps, take_turn,
}
use blueship.GraphExecutor.Orderly.{IsOrderly, Run-IsOrderly}
use blueship.GraphExecutor.Complete.{Run-IsComplete}
use blueship.Prelude.{
  String, true, false, none, some, List, [], ◌∷◌, ◌≡◌, refl, sym, length, eq_iff, true≢false,
}

abbrev two_reads_at_once : GraphExecutor
two_reads_at_once = record {
  research_deadline = none;
  separate_read_budget = false;
  parallel_reads = 2;
  lease = 30000;
}

abbrev a_step : String → Row
a_step id = record {
  id = id;
  kind = Kind.read;
  tools = [];
  dependencies = [];
  status = Status.pending;
  result = "";
  checkpoint = record {
    candidate_ready = absent;
    phase = absent;
    output = absent;
    last_candidate = absent;
    pending_tool = absent;
    rest = "";
  };
  next_attempt_at = 0;
  last_error = "";
  attempts = 0;
  max_attempts = 3;
  run_id = none;
  lease_until = none;
  heartbeat_at = none;
  started_at = none;
  completed_at = none;
  progress_at = none;
}

abbrev claimed_task : List Row → Db
claimed_task steps = record {
  task = some (record {
    status = TaskStatus.running;
    deadline = none;
    start_at = none;
    last_run_at = none;
    executor_version = 2;
  });
  run = some (record {
    run_id = 7;
    lease_until = 30000;
    heartbeat_at = 0;
    next_attempt_at = 0;
    started_at = 0;
  });
  steps = steps;
}

abbrev fresh_plan : Db
fresh_plan = claimed_task (a_step "papers" ∷ a_step "prices" ∷ [])

abbrev done_plan : Db
done_plan = claimed_task (record (a_step "papers") { status = Status.done; result = "three" } ∷ [])

abbrev at_head : Db → State
at_head db = record { db = db; loop = new_loop; place = Place.head }

abbrev has_read : State
has_read = read_steps fresh_plan.steps (at_head fresh_plan)

abbrev has_claimed : State
has_claimed =
    take_turn two_reads_at_once 5 (some 7) 40 fresh_plan.steps (a_step "papers")
      (a_step "prices" ∷ []) has_read
      (consider two_reads_at_once 5 fresh_plan.steps new_loop (a_step "papers"))

Run-has_claimed : Run two_reads_at_once fresh_plan has_claimed
unfolding read_steps all_steps_done is_done valid_executor
Run-has_claimed =
    goes (goes (begins refl) (reads refl refl))
      (looks 5 (some 7) 40 fresh_plan.steps (a_step "papers") (a_step "prices" ∷ []) refl)

one_worker : length has_claimed.loop.running ≡ 1
unfolding read_steps all_steps_done is_done take_turn consider is_pending is_running_id is_read
    dependency_inputs is_finalize expired claimed claim_task_step lock_task_execution find_row
    claimable none_conflicts all_done start_worker
one_worker = refl

Run-IsOrderly_example : IsOrderly two_reads_at_once has_claimed
Run-IsOrderly_example = Run-IsOrderly two_reads_at_once fresh_plan has_claimed Run-has_claimed

fresh_plan-IsNew : IsNew fresh_plan.steps
fresh_plan-IsNew = (
  refl,
  refl,
  ((λ e. true≢false (sym ((eq_iff "papers" "prices").1 e))), tt),
  (refl, refl, tt, tt),
)

abbrev has_finished : State
has_finished = read_steps done_plan.steps (at_head done_plan)

Run-IsComplete_example : all_steps_done has_finished.db.steps ≡ true
unfolding read_steps all_steps_done is_done valid_executor
Run-IsComplete_example =
    Run-IsComplete two_reads_at_once done_plan has_finished refl
      (goes (begins refl) (reads refl refl))
