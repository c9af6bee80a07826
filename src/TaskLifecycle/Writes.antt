-- ===== src/TaskLifecycle/Writes.antt =====
-- The single writes of a task's row (internal/core/agent_store.go, agent_deadline.go).
-- `required_recheck_urls` is left out.
use blueship.StepStore.{TaskStatus}
use blueship.TaskLifecycle.{
  TaskRow, jsonb_object, Iteration, Store, StoreResult, ok, err, not_running, is_none, is_open,
}
use blueship.Prelude.{
  ℕ, ◌+◌, String, Bool, true, false, ◌&&◌, ◌||◌, Option, none, some, List, [], ◌∷◌, ◌==◌, leb, ltb,
  if◌then◌else◌, str_eq, btrim,
}

-- UPDATE agent_tasks … WHERE id = … AND …
unfoldable pub change_row : (TaskRow → Bool) → (TaskRow → TaskRow) → Option TaskRow → Option TaskRow
change_row hit change none = none
change_row hit change (some t) = if hit t then some (change t) else some t

-- RowsAffected() > 0
unfoldable pub is_hit : (TaskRow → Bool) → Option TaskRow → Bool
is_hit hit none = false
is_hit hit (some t) = hit t

abbrev pub update_task : (TaskRow → Bool) → (TaskRow → TaskRow) → Store → Store
update_task hit change db = record db { task = change_row hit change db.task }

abbrev pub is_pending_row : TaskRow → Bool
is_pending_row t = elim t.status [ TaskStatus.pending ↦ true | _ ↦ false ]

abbrev pub is_running_row : TaskRow → Bool
is_running_row t = elim t.status [ TaskStatus.running ↦ true | _ ↦ false ]

abbrev pub is_paused_row : TaskRow → Bool
is_paused_row t = elim t.status [ TaskStatus.paused ↦ true | _ ↦ false ]

abbrev is_v1 : TaskRow → Bool
is_v1 t = t.executor_version == 1

-- `deadline IS NULL OR deadline > NOW()`
abbrev is_in_time : ℕ → TaskRow → Bool
is_in_time now t = elim t.deadline [ none ↦ true | some d ↦ ltb now d ]

abbrev is_due_row : ℕ → TaskRow → Bool
is_due_row now t = elim t.deadline [ none ↦ false | some d ↦ leb d now ]

abbrev ran_before : ℕ → TaskRow → Bool
ran_before limit t = elim t.last_run_at [ none ↦ false | some l ↦ ltb l limit ]

unfoldable pub set_running : ℕ → Store → Store
set_running now =
    update_task is_v1 (λ t. record t { status = TaskStatus.running; last_run_at = some now })

unfoldable pub try_set_running : ℕ → Store → Store × Bool
try_set_running now db =
    let hit = λ (t : TaskRow). is_v1 t && is_pending_row t && is_in_time now t in
    (
      update_task hit (λ t. record t { status = TaskStatus.running; last_run_at = some now }) db,
      is_hit hit db.task,
    )

unfoldable pub update_progress : String → Store → Store
update_progress progress = update_task is_running_row (λ t. record t {
  progress = jsonb_object progress;
  status = TaskStatus.pending;
  iteration = t.iteration + 1;
})

unfoldable pub complete : ℕ → String → Store → Store × StoreResult Unit
complete now result db =
    let hit = λ (t : TaskRow). is_running_row t && is_in_time now t in
    (
      update_task hit
          (λ t. record t {
            status = TaskStatus.done;
            result = some result;
            completed_at = some now;
            iteration = t.iteration + 1;
          })
          db,
      if is_hit hit db.task then ok tt else err not_running,
    )

abbrev exhausted_text : String
exhausted_text = "max_iterations reached without satisfying acceptance criteria"

abbrev coalesce : Option String → String → String
coalesce none d = d
coalesce (some s) d = s

-- COALESCE(i.output, '') <> '' ORDER BY i.iteration DESC LIMIT 1
unfoldable pub last_output : List Iteration → Option Iteration
last_output [] = none
last_output (i ∷ is) =
    let rest = last_output is in
    if str_eq (coalesce i.output "") ""
    then rest
    else elim rest [ none ↦ some i | some j ↦ if ltb i.number j.number then some j else some i ]

unfoldable pub salvaged : Option String → List Iteration → String
salvaged result is =
    let last : String = elim (last_output is) [
      | none ↦ exhausted_text
      | some i ↦ coalesce i.output exhausted_text
    ] in
    elim result [
      | none ↦ last
      | some r ↦ if str_eq (btrim r) "" || str_eq r "Cancelled by user" then last else r
    ]

unfoldable pub complete_exhausted : ℕ → Store → Store
complete_exhausted now db =
    update_task
      (λ t.
        is_v1 t
        && is_pending_row t
        && is_none t.schedule
        && ltb 0 t.max_iterations
        && leb t.max_iterations t.iteration)
      (λ t. record t {
        status = TaskStatus.failed;
        completed_at = some now;
        error_message = some (coalesce t.error_message exhausted_text);
        result = some (salvaged t.result db.iterations);
      })
      db

unfoldable pub update_shaping : ℕ → Store → Store
update_shaping max_iterations =
    update_task (λ t. true) (λ t. record t { max_iterations = max_iterations })

unfoldable pub set_pending : Store → Store
set_pending = update_task is_running_row (λ t. record t { status = TaskStatus.pending })

unfoldable pub set_pending_for_notification_retry : Store → Store
set_pending_for_notification_retry =
    update_task is_running_row (λ t. record t { status = TaskStatus.pending; last_run_at = none })

unfoldable pub fail_task : String → Store → Store
fail_task reason =
    update_task (λ t. true)
      (λ t. record t { status = TaskStatus.failed; error_message = some reason })

-- `AgentTaskStore.Cancel`, which is deprecated.
unfoldable pub cancel_legacy : ℕ → Store → Store
cancel_legacy now =
    update_task (λ t. is_pending_row t || is_running_row t)
      (λ t. record t {
        status = TaskStatus.done;
        result = some "Cancelled by user";
        completed_at = some now;
      })

unfoldable pub reset_stale : ℕ → Store → Store
reset_stale limit =
    update_task (λ t. is_v1 t && is_running_row t && ran_before limit t)
      (λ t. record t { status = TaskStatus.pending })

unfoldable pub reset_for_next_run : Store → Store
reset_for_next_run =
    update_task (λ t. true)
      (λ t. record t {
        status = TaskStatus.pending;
        iteration = 0;
        progress = "{}";
        result = none;
        error_message = none;
        completed_at = none;
      })

unfoldable pub approve : Store → Store
approve = update_task is_paused_row (λ t. record t { status = TaskStatus.pending })

unfoldable pub pause_task : String → Store → Store
pause_task progress = update_task is_running_row (λ t. record t {
  progress = jsonb_object progress;
  status = TaskStatus.paused;
  iteration = t.iteration + 1;
})

-- `peer_of` is `progress->>'peer_task_id'`.
unfoldable pub wake_paused_by_peer_task : (String → Option String) → String → Store → Store
wake_paused_by_peer_task peer_of peer =
    update_task
      (λ t.
        is_v1 t
        && is_paused_row t
        && elim (peer_of t.progress) [ none ↦ false | some p ↦ str_eq p peer ])
      (λ t. record t { status = TaskStatus.pending })

unfoldable pub wake_stale_paused : ℕ → Store → Store
wake_stale_paused limit =
    update_task (λ t. is_v1 t && is_paused_row t && ran_before limit t)
      (λ t. record t { status = TaskStatus.pending })

unfoldable pub set_task_deadline : ℕ → Store → Store
set_task_deadline deadline =
    update_task
      (λ t.
        is_v1 t && is_open t.status && elim t.deadline [ none ↦ true | some d ↦ ltb deadline d ])
      (λ t. record t { deadline = some deadline })

unfoldable pub expire_task : ℕ → Store → Store × Bool
expire_task now db =
    let hit = λ (t : TaskRow). is_v1 t && is_open t.status && is_due_row now t in
    (
      update_task hit
          (λ t. record t {
            status = TaskStatus.failed;
            error_message = some "wall_clock_deadline_exceeded";
            completed_at = some now;
          })
          db,
      is_hit hit db.task,
    )
