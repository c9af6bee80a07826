-- ===== src/TaskLifecycle/Examples/Maintained.antt =====
-- The maintenance of an overdue task, and the theorems about it at this run.
use blueship.Prelude.{
  String, ◌⊎◌, true, none, some, ◌≡◌, refl, trim_space, is_blank, is_space, trim_left, trim_right,
}
use blueship.StepStore.{TaskStatus}
use blueship.Outbox.{
  has_ref, insert_ref, normalize_loop, normalize_task_delivery_refs, ref_before, same_ref,
  sort_task_delivery_refs,
}
use blueship.Outbox.Ops.{find_occurrence, is_reserved, queue_attempt, queue_items, reserve_items}
use blueship.TaskLifecycle.{
  TaskRow, Store, StoreError, err, is_open, is_terminal, is_recurring, task_runs_to_completion,
}
use blueship.TaskLifecycle.Draft.{clean_task_draft, remove_markers, draft_body, latest_output}
use blueship.TaskLifecycle.Finalize.{
  is_outcome, finalize_selected, finalize_row, lost_run, lost_claim, not_expired, finalize_body,
  explain, publish, store_result, notified, last_version, result_ref, task_terminal_status,
  finalize_task_tx,
}
use blueship.TaskLifecycle.Writes.{change_row, set_task_deadline}
use blueship.TaskLifecycle.Deadlines.{
  Maintenance, task_deadline_exceeded, deadline_finalization, expire_now, keep_deadline,
  maintain_wall, maintain_row, task_wall_start, task_wall_deadline, is_deadline_task,
  maintain_task_deadlines,
}
use blueship.TaskLifecycle.Dated.{IsDated, stored, maintain_task_deadlines-IsDated}
use blueship.TaskLifecycle.Excuses.{is_excuse}
use blueship.TaskLifecycle.Overdue.{maintain_task_deadlines-closes}
use blueship.Outbox.Resolution.{Parsed, plain}
use blueship.TaskLifecycle.Examples.{
  plain_texts, first_key, version_text, newer, no_metadata, running_row, running_db,
}

abbrev plain_text : String → Parsed
plain_text s = plain

-- At 6000, after the deadline of the task, with no transport.
abbrev late : Maintenance
late = record {
  now = 6000;
  limit = 4000;
  created = 50;
  start_at = some 500;
  partial_text = "partial";
  stopped_text = "stopped";
  progress_text = "still working";
  deadline_text = "the time is over";
  fresh = 9;
  notify = none;
}

abbrev maintain : Store → Store
maintain =
    maintain_task_deadlines plain_texts first_key version_text newer no_metadata plain_text late

maintain_closes :
    (maintain running_db).task
    ≡ some (record running_row {
      status = TaskStatus.failed;
      result = some "stopped";
      completed_at = some 6000;
      error_message = some task_deadline_exceeded;
      deadline = some 4500;
    })
unfolding maintain_task_deadlines is_deadline_task maintain_row maintain_wall task_wall_deadline
    keep_deadline task_wall_start expire_now deadline_finalization set_task_deadline change_row
    finalize_task_tx is_outcome finalize_selected finalize_row is_open lost_run lost_claim
    not_expired finalize_body explain clean_task_draft trim_space remove_markers draft_body publish
    store_result notified is_blank find_occurrence is_reserved queue_attempt queue_items
    reserve_items has_ref insert_ref normalize_loop normalize_task_delivery_refs ref_before same_ref
    sort_task_delivery_refs is_space trim_left trim_right latest_output last_version result_ref
    task_terminal_status is_recurring task_runs_to_completion
maintain_closes = refl

maintain_task_deadlines-closes_example :
    ((after : TaskRow) × ((maintain running_db).task ≡ some after)
      × (is_terminal after.status ≡ true))
    ⊎ ((e : StoreError) × (is_excuse "stopped" e ≡ true)
        × (finalize_task_tx plain_texts first_key version_text newer no_metadata 6000 none 9
              (deadline_finalization late)
              (stored running_row 4500 running_db)
            ≡ (stored running_row 4500 running_db, err e))
        × (maintain running_db ≡ stored running_row 4500 running_db))
unfolding is_open is_recurring task_wall_start
maintain_task_deadlines-closes_example =
    maintain_task_deadlines-closes plain_texts first_key version_text newer no_metadata plain_text
      late running_row running_db refl refl refl refl refl

maintain_task_deadlines-IsDated_example : IsDated (some 4500) (maintain running_db).task
unfolding is_open is_recurring task_wall_start
maintain_task_deadlines-IsDated_example =
    maintain_task_deadlines-IsDated plain_texts first_key version_text newer no_metadata plain_text
      late running_row running_db refl
