-- ===== src/TaskLifecycle/Control.antt =====
-- The owner's controls: `Cancel` and `Dismiss` (internal/core/task_control.go), `Restart` and `Resume`
-- (internal/core/task_restart.go).
use blueship.StepStore.{TaskStatus, is_read, is_finalize, is_done}
use blueship.Outbox.{Ref}
use blueship.TaskLifecycle.{
  TaskRow, StepDraft, TaskArtifact, Store, StoreResult, ok, err, no_rows, task_active, not_terminal,
  restart_uncertain, not_recurring, is_recurring, is_terminal, task_runs_to_completion,
}
use blueship.TaskLifecycle.Draft.{Texts}
use blueship.TaskLifecycle.Finalize.{TaskFinalization, finalize_task_tx}
use blueship.TaskLifecycle.Writes.{update_task}
use blueship.Prelude.{
  ℕ, ◌+◌, String, Bool, true, false, not, ◌&&◌, ◌||◌, Option, none, some, List, [], ◌∷◌, ◌==◌, ltb,
  if◌then◌else◌,
}

abbrev pub is_owned : ℕ → ℕ → ℕ → TaskRow → Bool
is_owned user soul id t = t.id == id && t.user_id == user && t.soul_id == soul

-- SELECT … WHERE id = … AND user_id = … AND soul_id = … FOR UPDATE, after the check of the ids.
unfoldable pub owned_row : ℕ → ℕ → ℕ → Store → Option TaskRow
owned_row user soul id db =
    if user == 0 || soul == 0 || id == 0
    then none
    else elim db.task [ none ↦ none | some t ↦ if is_owned user soul id t then some t else none ]

abbrev is_canceled : TaskStatus → Bool
is_canceled TaskStatus.canceled = true
is_canceled _ = false

abbrev is_stopped : TaskStatus → Bool
is_stopped TaskStatus.canceled = true
is_stopped TaskStatus.paused = true
is_stopped _ = false

abbrev set_status : TaskStatus → Store → Store
set_status s = update_task (λ t. true) (λ t. record t { status = s })

-- Whether the task has changed.
abbrev changed : Store × StoreResult (Option TaskArtifact) → Store × StoreResult Bool
changed (db, ok none) = (db, ok false)
changed (db, ok (some a)) = (db, ok true)
changed (db, err e) = (db, err e)

abbrev pub by_user : String → TaskFinalization
by_user empty_body = record {
  outcome = "cancelled";
  body = "";
  reason = "cancelled_by_user";
  unverified_draft_fmt = "";
  empty_body = empty_body;
  notify = "";
  empty_notify = "";
  progress = "";
  pending_deliveries = [];
  claim_started_at = none;
  expired_at = none;
}

module _ (texts : Texts) (key : List Ref → String) (version_key : ℕ → String)
    (merge : String → String → String) (metadata : String → ℕ → String → String) where
  -- `TaskController.Cancel`
  unfoldable pub cancel_task : ℕ → ℕ → ℕ → ℕ → ℕ → String → Store → Store × StoreResult Bool
  cancel_task now fresh user soul id empty_body db = elim (owned_row user soul id db) [
    | none ↦ (db, err no_rows)
    | some t ↦
        if not (is_recurring t)
        then changed (
            finalize_task_tx texts key version_key merge metadata now none fresh
              (by_user empty_body) db)
        else if is_canceled t.status
        then (db, ok false)
        else (set_status TaskStatus.canceled db, ok true)
  ]

-- `TaskController.Dismiss`
unfoldable pub dismiss : ℕ → ℕ → ℕ → Store → Store × StoreResult Bool
dismiss user soul id db = elim (owned_row user soul id db) [
  | none ↦ (db, err no_rows)
  | some t ↦
      if is_recurring t
      then (db, err no_rows)
      else if not (is_terminal t.status)
      then (db, err task_active)
      else (record db { dismissed = true }, ok (not db.dismissed))
]

abbrev is_no_tools : List String → Bool
is_no_tools [] = true
is_no_tools (t ∷ ts) = false

-- An operation outside that has been tried and is not known to be done.
unfoldable pub any_uncertain : List StepDraft → Bool
any_uncertain [] = false
any_uncertain (s ∷ steps) =
    (not (is_read s.row.kind)
      && not (is_finalize s.row.kind && is_no_tools s.row.tools)
      && ltb 0 s.row.attempts
      && not (is_done s.row.status))
    || any_uncertain steps

-- The row that a restart inserts; `default_task_wall_timeout` is 30 minutes.
abbrev pub restarted_row : ℕ → ℕ → ℕ → TaskRow → TaskRow
restarted_row now child budget t = record t {
  id = child;
  status = TaskStatus.pending;
  schedule = none;
  cadence = none;
  deadline =
      if task_runs_to_completion t
      then none
      else some (now + (if budget == 0 then 1800000 else budget));
  last_run_at = none;
  iteration = 0;
  progress = "{}";
  result = none;
  error_message = none;
  completed_at = none;
}

-- `TaskController.Restart`; a budget that is not positive is 0.
unfoldable pub restart_task : ℕ → ℕ → ℕ → ℕ → ℕ → ℕ → Store → Store × StoreResult ℕ
restart_task now child user soul id budget db = elim (owned_row user soul id db) [
  | none ↦ (db, err no_rows)
  | some t ↦
      if is_recurring t || not (is_terminal t.status)
      then (db, err not_terminal)
      else elim db.restart [
        | some previous ↦ (db, ok previous.id)
        | none ↦
            if t.executor_version == 2 && any_uncertain db.steps
            then (db, err restart_uncertain)
            else (record db { restart = some (restarted_row now child budget t) }, ok child)
      ]
]

-- `TaskController.Resume`
unfoldable pub resume_task : ℕ → ℕ → ℕ → Store → Store × StoreResult Unit
resume_task user soul id db = elim (owned_row user soul id db) [
  | none ↦ (db, err no_rows)
  | some t ↦
      if not (is_recurring t)
      then (db, err not_recurring)
      else if is_stopped t.status
      then (set_status TaskStatus.pending db, ok tt)
      else (db, ok tt)
]
