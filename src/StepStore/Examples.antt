-- ===== src/StepStore/Examples.antt =====
-- A task of two steps, its coordinator and a worker; the instants are milliseconds.
use blueship.TaskSteps.{
  TaskStep, validate_task_steps, collect, admit, lacks_field, is_kind, has_bad_estimate,
}
use blueship.Graph.{walk_all, walk, each, enter, leave}
use blueship.Graph.Nodes.{find, deps_of}
use blueship.StepStore.Save.{
  save_task_steps, save_task_steps-safe, insert_steps, insert_step, kind_of, new_row,
}
use blueship.Prelude.{
  contains, remove, ℕ, String, Bool, Option, none, some, List, [], ◌∷◌, ◌≡◌, refl, arith, eq_iff,
  is_blank,
}
use blueship.Prelude.Int.{ℤ, pos}
use blueship.StepStore.{
  Kind, Status, Row, Db, TaskRun, TaskStatus, Checkpoint, Error, ok, err, absent, find_row, update,
  is_running, is_pending, is_done, affected, is_live,
}
use blueship.StepStore.Ops.{
  complete_task_step, checkpoint_task_step, claim_task_step, lock_task_execution, require_task_run,
  claim_row, complete_row, claimable, none_conflicts, all_done, write, fenced,
}
use blueship.StepStore.Failures.{fail_task_step_after}
use blueship.StepStore.Runs.{claim_graph_task, next_run, admissible, was_running}
use blueship.StepStore.Invariant.{Inv}
use blueship.StepStore.Schedule.{
  Op, claim, complete, claim_graph, recover, renew_graph, no_claim, apply, run_ops,
}
use blueship.StepStore.Safety.{IsNew, Each, Advance, run_ops-safe, apply-Advance}
use blueship.StepStore.Fencing.{takeover-fences_workers}

abbrev empty : Checkpoint
empty = record {
  candidate_ready = absent;
  phase = absent;
  output = absent;
  last_candidate = absent;
  pending_tool = absent;
  rest = "";
}

abbrev step : String → Kind → List String → Row
step id kind dependencies = record {
  id = id;
  kind = kind;
  tools = [];
  dependencies = dependencies;
  status = Status.pending;
  result = "";
  checkpoint = empty;
  next_attempt_at = 0;
  last_error = "";
  attempts = 0;
  max_attempts = 3;
  run_id = none;
  lease_until = none;
  heartbeat_at = none;
  started_at = none;
  completed_at = none;
  progress_at = none;
}

abbrev stored : Db
stored = record {
  task = some (record {
    status = TaskStatus.pending;
    deadline = none;
    start_at = none;
    last_run_at = none;
    executor_version = 2;
  });
  run = none;
  steps = step "mail" Kind.action [] ∷ step "report" Kind.read ("mail" ∷ []) ∷ [];
}

stored-IsNew : IsNew stored.steps
stored-IsNew =
    (refl, refl, ((λ e. ground (arith, eq_iff "mail" "report")), tt), (refl, refl, tt, tt))

abbrev ops : List Op
ops =
    claim_graph 1000 0 7 60000
    ∷ claim 1001 (some 7) "mail" 8 30000
    ∷ complete 1002 (some 7) "mail" 8 "sent"
    ∷ claim 1003 (some 7) "report" 9 30000
    ∷ []

abbrev statuses : List Row → List Status
statuses [] = []
statuses (r ∷ rows) = r.status ∷ statuses rows

-- The mail is sent; then the report runs.
mail_then_report : statuses (run_ops ops stored).steps ≡ Status.done ∷ Status.running ∷ []
unfolding run_ops claim_graph_task next_run admissible claim_task_step complete_task_step
    lock_task_execution find_row update claimable is_running is_pending is_done none_conflicts
    all_done write fenced affected is_live is_blank was_running claim_row complete_row
mail_then_report = refl

run_ops-safe_example : Inv (run_ops ops stored).steps
run_ops-safe_example = run_ops-safe ops stored stored-IsNew

abbrev interrupted : Db
interrupted = run_ops (claim_graph 1000 0 7 60000 ∷ claim 1001 (some 7) "mail" 8 30000 ∷ []) stored

apply-Advance_example :
    Each Advance interrupted.steps (apply (recover 40000 (some 7)) interrupted).steps
apply-Advance_example = apply-Advance (recover 40000 (some 7)) interrupted

abbrev taken : Db
taken = (claim_graph_task 70000 0 10 60000 interrupted).0

abbrev second_run : TaskRun
second_run = record {
  run_id = 10;
  lease_until = 130000;
  heartbeat_at = 70000;
  next_attempt_at = 1000;
  started_at = 70000;
}

other_run : (a b : ℕ) → some a ≡ some b → a ≡ b
other_run a b e = cc

takes_over : claim_graph_task 70000 0 10 60000 interrupted ≡ (taken, ok (some second_run))
unfolding claim_graph_task run_ops next_run admissible claim_task_step lock_task_execution find_row
    update claimable was_running is_running is_pending none_conflicts all_done
takes_over = refl

-- The new coordinator looks for lapsed steps and renews its lease.
abbrev housekeeping : List Op
housekeeping = recover 70000 (some 10) ∷ renew_graph 70001 (some 10) 60000 ∷ []

abbrev settled : Db
settled = run_ops housekeeping taken

takeover-fences_workers_example :
    ((result : String)
      → (e : Error) × (complete_task_step 70002 (some 10) "mail" 8 result settled
          ≡ (settled, err e)))
    × ((step_lease : ℕ) (cp : Option Checkpoint)
        → (e : Error) × (checkpoint_task_step 70002 (some 10) "mail" 8 step_lease cp settled
            ≡ (settled, err e)))
    × ((reason : String) (retryable : Bool) (delay : ℤ)
        → (e : Error) × (fail_task_step_after 70002
              (some 10)
              "mail"
              8
              reason
              retryable
              delay
              settled
            ≡ (settled, err e)))
unfolding no_claim
takeover-fences_workers_example =
    takeover-fences_workers 70000 0 10 60000 interrupted taken second_run takes_over housekeeping
      refl 70002 (some 10) "mail" 8

abbrev claimed : Db
claimed = record {
  task = some (record {
    status = TaskStatus.running;
    deadline = none;
    start_at = none;
    last_run_at = some 900;
    executor_version = 2;
  });
  run = some second_run;
  steps = [];
}

abbrev drafted : TaskStep
drafted = record {
  id = "mail";
  goal = "send the mail";
  acceptance = "sent";
  kind = "action";
  dependencies = [];
  max_attempts = pos 0;
  estimated_ms = none;
  tools = "send_mail" ∷ [];
}

abbrev drafted_keys : List String
drafted_keys = "mail" ∷ []

abbrev saved : Db
saved = (save_task_steps drafted_keys 80000 (some 10) 900 (drafted ∷ []) claimed).0

saves : save_task_steps drafted_keys 80000 (some 10) 900 (drafted ∷ []) claimed ≡ (saved, ok tt)
unfolding save_task_steps validate_task_steps collect admit lacks_field is_blank find is_kind
    has_bad_estimate walk_all walk contains deps_of each enter leave remove lock_task_execution
    require_task_run insert_steps insert_step kind_of find_row new_row
saves = refl

save_task_steps-safe_example :
    Inv (run_ops (claim 80001 (some 10) "mail" 11 30000 ∷ []) saved).steps
save_task_steps-safe_example =
    save_task_steps-safe drafted_keys 80000 (some 10) 900 (drafted ∷ []) claimed saved refl saves
      (claim 80001 (some 10) "mail" 11 30000 ∷ [])
