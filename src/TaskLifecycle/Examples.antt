-- ===== src/TaskLifecycle/Examples.antt =====
-- Runs of the store on one task, and the theorems at these runs.
mod Maintained
use blueship.Prelude.{
  ℕ, String, ◌⊎◌, true, false, Option, none, some, List, [], ◌∷◌, ◌≡◌, refl, arith, trim_space,
  is_blank, is_space, trim_left, trim_right,
}
use blueship.StepStore.{TaskStatus}
use blueship.Outbox.{
  Ref, has_ref, insert_ref, normalize_loop, normalize_task_delivery_refs, ref_before, same_ref,
  sort_task_delivery_refs,
}
use blueship.Outbox.Ops.{find_occurrence, is_reserved, queue_attempt, queue_items, reserve_items}
use blueship.TaskLifecycle.{
  TaskRow, TaskArtifact, Store, StoreError, StoreResult, ok, err, claim_lost, is_open, is_terminal,
  is_recurring, task_runs_to_completion,
}
use blueship.TaskLifecycle.Draft.{
  Texts, clean_task_draft, remove_markers, draft_body, latest_output,
}
use blueship.TaskLifecycle.Finalize.{
  TaskFinalization, is_outcome, finalize_selected, finalize_row, lost_run, lost_claim, not_expired,
  finalize_body, explain, publish, store_result, notified, last_version, result_ref,
  task_terminal_status, finalize_task_tx,
}
use blueship.TaskLifecycle.Outcome.{IsOutcome}
use blueship.TaskLifecycle.Finalized.{finalize_task_tx-IsOutcome}
use blueship.TaskLifecycle.Writes.{
  try_set_running, is_hit, update_progress, fail_task, salvaged, last_output, change_row,
  set_task_deadline,
}
use blueship.TaskLifecycle.Control.{by_user, owned_row, restart_task}
use blueship.Outbox.Claim.{claim_retryable_notification}
use blueship.TaskLifecycle.Schedule.{StoreOp, run_senders, is_unguarded, run_all}
use blueship.TaskLifecycle.Sealed.{IsKept, any_unguarded, run_all-IsKept}
use blueship.TaskLifecycle.Restarted.{restart_task-once}
use blueship.TaskLifecycle.Deadlines.{
  Maintenance, task_deadline_exceeded, deadline_finalization, expire_now, keep_deadline,
  maintain_wall, maintain_row, task_wall_start, task_wall_deadline, is_deadline_task,
  maintain_task_deadlines,
}
use blueship.TaskLifecycle.Dated.{IsDated, stored, maintain_task_deadlines-IsDated}
use blueship.TaskLifecycle.Excuses.{is_excuse}
use blueship.TaskLifecycle.Overdue.{maintain_task_deadlines-closes}
use blueship.Outbox.Resolution.{Parsed, plain}
use blueship.TaskLifecycle.Claims.{is_under, all_under, try_set_running-fences}

abbrev plain_texts : Texts
plain_texts = record {
  strip_internals = λ s. s;
  remove_all = λ s m. s;
  unmarshal_final = λ s. none;
  format_draft = λ f g t r. t;
  by_step_id = λ steps. steps;
}

abbrev first_key : List Ref → String
first_key [] = ""
first_key (r ∷ rs) = r.item_key

abbrev version_text : ℕ → String
version_text n = "1"

abbrev newer : String → String → String
newer a b = b

abbrev no_metadata : String → ℕ → String → String
no_metadata outcome v reason = "{}"

abbrev no_peer : String → Option String
no_peer progress = none

abbrev task_7 : TaskRow
task_7 = record {
  id = 7;
  user_id = 1;
  soul_id = 2;
  status = TaskStatus.pending;
  strategy = "one_shot";
  schedule = none;
  cadence = none;
  deadline = some 5000;
  last_run_at = none;
  executor_version = 1;
  iteration = 0;
  max_iterations = 3;
  progress = "{}";
  result = none;
  error_message = none;
  completed_at = none;
}

abbrev fresh_db : Store
fresh_db = record {
  task = some task_7;
  run = none;
  steps = [];
  artifacts = [];
  submission = none;
  checkpoint = none;
  iterations = [];
  journal = record { attempts = []; items = []; deliveries = [] };
  dismissed = false;
  restart = none;
}

abbrev report : TaskFinalization
report = record (by_user "nothing") { outcome = "completed"; body = " the report "; reason = "" }

abbrev running_row : TaskRow
running_row = record task_7 { status = TaskStatus.running; last_run_at = some 100 }

abbrev running_db : Store
running_db = record fresh_db { task = some running_row }

abbrev canceled_row : TaskRow
canceled_row = record task_7 { status = TaskStatus.canceled; completed_at = some 200 }

abbrev canceled_db : Store
canceled_db = record fresh_db { task = some canceled_row }

abbrev finish_at : ℕ → Store → Store × StoreResult (Option TaskArtifact)
finish_at now =
    finalize_task_tx plain_texts first_key version_text newer no_metadata now none 9 report

finish_at-runs :
    (finish_at 300 running_db).1
    ≡ ok (some (record { version = 1; outcome = "completed"; body = "the report"; reason = "" }))
unfolding finalize_task_tx is_outcome finalize_selected finalize_row is_open lost_run lost_claim
    not_expired finalize_body clean_task_draft trim_space remove_markers draft_body publish
    store_result notified is_blank find_occurrence is_reserved queue_attempt queue_items
    reserve_items has_ref insert_ref normalize_loop normalize_task_delivery_refs ref_before same_ref
    sort_task_delivery_refs is_space trim_left trim_right latest_output last_version result_ref
    task_terminal_status is_recurring task_runs_to_completion
finish_at-runs = refl

finish_late : finish_at 6000 running_db ≡ (running_db, err claim_lost)
unfolding finalize_task_tx is_outcome finalize_selected finalize_row is_open lost_run lost_claim
    not_expired
finish_late = refl

-- `Fail` does not look at the status: a task that its owner has cancelled is failed afterwards.
fail_canceled :
    (fail_task "no executor" canceled_db).task
    ≡ some (record canceled_row { status = TaskStatus.failed; error_message = some "no executor" })
unfolding fail_task change_row
fail_canceled = refl

-- `UpdateProgress` does.
progress_canceled : update_progress "{}" canceled_db ≡ canceled_db
unfolding update_progress change_row
progress_canceled = refl

salvaged_last :
    salvaged none
      (record { number = 1; output = some "a" } ∷ record { number = 2; output = some "b" } ∷ [])
    ≡ "b"
unfolding salvaged last_output
salvaged_last = refl

finalize_task_tx-IsOutcome_example :
    IsOutcome plain_texts 300 report running_db (finish_at 300 running_db)
finalize_task_tx-IsOutcome_example =
    finalize_task_tx-IsOutcome plain_texts first_key version_text newer no_metadata 300 none 9
      report running_db

abbrev later_ops : List StoreOp
later_ops =
    StoreOp.finalize 300 none 9 report
    ∷ StoreOp.resume 1 2 7
    ∷ StoreOp.progress "{}"
    ∷ StoreOp.sender (λ j. (claim_retryable_notification 350 (λ id. false) j).0)
    ∷ StoreOp.restart 400 8 1 2 7 0
    ∷ []

run_all-IsKept_example :
    IsKept
      (run_senders later_ops)
      canceled_db
      (run_all plain_texts first_key version_text newer no_metadata no_peer later_ops canceled_db)
unfolding is_terminal is_recurring any_unguarded is_unguarded
run_all-IsKept_example =
    run_all-IsKept plain_texts first_key version_text newer no_metadata no_peer later_ops
      canceled_db canceled_row refl refl refl refl

abbrev restarted_db : Store
restarted_db = (restart_task 400 8 1 2 7 0 canceled_db).0

restart_task-once_example :
    restart_task 900 11 1 2 7 0
      (run_all plain_texts first_key version_text newer no_metadata no_peer later_ops restarted_db)
    ≡ (
      run_all plain_texts first_key version_text newer no_metadata no_peer later_ops restarted_db,
      ok 8,
    )
unfolding is_terminal is_recurring any_unguarded is_unguarded restart_task owned_row
restart_task-once_example =
    restart_task-once plain_texts first_key version_text newer no_metadata no_peer 400 8 1 2 7 0 900
      11 0 canceled_db restarted_db 8 later_ops refl refl

abbrev taken_db : Store
taken_db = (try_set_running 100 fresh_db).0

abbrev stale_ops : List StoreOp
stale_ops = StoreOp.submit 150 50 "old" ∷ StoreOp.reject 50 "{}" ∷ []

try_set_running-fences_example :
    run_all plain_texts first_key version_text newer no_metadata no_peer stale_ops taken_db
    ≡ taken_db
unfolding try_set_running is_hit change_row is_under all_under
try_set_running-fences_example =
    try_set_running-fences plain_texts first_key version_text newer no_metadata no_peer 100 50
      stale_ops fresh_db taken_db refl (ground arith) refl
