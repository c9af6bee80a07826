-- ===== src/TaskLifecycle/Deadlines.antt =====
-- The wall-clock budget of a task: `TaskStopDeadline`, `TaskWallStart`, `TaskWallDeadline`,
-- `DeadlineTasks` (internal/core/agent_deadline.go), and what maintenance does with one task
-- (`maintainTaskDeadlines`, `expireTask`, `notifyTaskLifecycle` of internal/agenttask/deadline.go).
-- `config.start_at`, once parsed, is an instant or none; the zero time is 0. Nothing else writes the
-- task between the read of its row and the writes of one round.
use blueship.StepStore.{TaskStatus}
use blueship.Outbox.{Ref, Item, Journal}
use blueship.Outbox.Resolution.{Parsed}
use blueship.Outbox.Deliver.{CallOutcome, deliver_task_notification}
use blueship.TaskLifecycle.{TaskRow, Store, is_recurring, is_open, task_runs_to_completion}
use blueship.TaskLifecycle.Draft.{Texts}
use blueship.TaskLifecycle.Finalize.{TaskFinalization, finalize_task_tx}
use blueship.TaskLifecycle.Writes.{set_task_deadline}
use blueship.Prelude.{
  ℕ, ◌+◌, String, Bool, true, false, not, ◌&&◌, ◌||◌, Option, none, some, List, [], ◌∷◌, ◌==◌, leb,
  ltb, if◌then◌else◌, str_eq,
}

abbrev pub default_task_wall_timeout : ℕ
default_task_wall_timeout = 1800000

abbrev pub task_progress_after : ℕ
task_progress_after = 600000

abbrev pub task_deadline_exceeded : String
task_deadline_exceeded = "wall_clock_deadline_exceeded"

unfoldable pub task_stop_deadline : TaskRow → Option ℕ
task_stop_deadline t = if task_runs_to_completion t then none else t.deadline

-- A deliberate start after `start` moves it.
abbrev later_start : ℕ → Option ℕ → ℕ
later_start start none = start
later_start start (some s) = if ltb start s then s else start

unfoldable pub task_wall_start : ℕ → Option ℕ → ℕ → ℕ
task_wall_start created start_at now = later_start (if created == 0 then now else created) start_at

abbrev pub or_default_limit : ℕ → ℕ
or_default_limit limit = if limit == 0 then default_task_wall_timeout else limit

abbrev pub min_deadline : Option ℕ → ℕ → ℕ
min_deadline none d = d
min_deadline (some old) d = if ltb old d then old else d

-- A limit that is not positive is 0.
unfoldable pub task_wall_deadline : TaskRow → ℕ → Option ℕ → ℕ → ℕ → Option ℕ
task_wall_deadline t created start_at now limit =
    if task_runs_to_completion t
    then none
    else if is_recurring t
    then t.deadline
    else some
        (min_deadline t.deadline (task_wall_start created start_at now + or_default_limit limit))

abbrev pub is_failed : TaskStatus → Bool
is_failed TaskStatus.failed = true
is_failed _ = false

abbrev is_due_text : Option String → Bool
is_due_text none = false
is_due_text (some s) = str_eq s task_deadline_exceeded

abbrev has_deadline : TaskRow → Bool
has_deadline t = elim t.deadline [ none ↦ false | some d ↦ true ]

-- A notification of the end of the task.
unfoldable pub is_told : ℕ → List Item → Bool
is_told task [] = false
is_told task (i ∷ items) =
    (i.task_id == task
      && ((str_eq i.ref.input_id "task_lifecycle" && str_eq i.ref.item_key "deadline")
          || str_eq i.ref.input_id "task_result"))
    || is_told task items

-- The WHERE clause of `DeadlineTasks`.
unfoldable pub is_deadline_task : Journal → TaskRow → Bool
is_deadline_task j t =
    t.executor_version == 1
    && ((is_open t.status && (has_deadline t || not (is_recurring t)))
        || (is_failed t.status && is_due_text t.error_message && not (is_told t.id j.items)))

abbrev pub is_same_deadline : ℕ → Option ℕ → Bool
is_same_deadline d none = false
is_same_deadline d (some e) = e == d

-- What maintenance reads beside the store: the clock, the limit, the task's columns `created_at` and
-- `config`, the texts of the host, and a fresh identifier with the transport for a notification.
pub record Maintenance : Type 0 where
  pub now : ℕ
  pub limit : ℕ
  pub created : ℕ
  pub start_at : Option ℕ
  pub partial_text : String
  pub stopped_text : String
  pub progress_text : String
  pub deadline_text : String
  pub fresh : ℕ
  pub notify : Option (ℕ → CallOutcome)

-- The finalization of `expireTask`.
unfoldable pub deadline_finalization : Maintenance → TaskFinalization
deadline_finalization m = record {
  outcome = "partial";
  body = "";
  reason = task_deadline_exceeded;
  unverified_draft_fmt = "";
  empty_body = m.stopped_text;
  notify = m.partial_text;
  empty_notify = m.stopped_text;
  progress = "";
  pending_deliveries = [];
  claim_started_at = none;
  expired_at = some m.now;
}

module _ (texts : Texts) (key : List Ref → String) (version_key : ℕ → String)
    (merge : String → String → String) (metadata : String → ℕ → String → String)
    (parse : String → Parsed) where
  -- `notifyTaskLifecycle`, with a journal; `notify` stands for the notifier that it validates.
  unfoldable pub notify_task_lifecycle : Maintenance → TaskRow → String → String → Store → Store
  notify_task_lifecycle m t stage text db = record db {
    journal =
        (deliver_task_notification key parse m.now m.fresh true t.id t.user_id text
          (record { input_id = "task_lifecycle"; item_key = stage } ∷ []) m.notify db.journal).0;
  }

  -- `expireTask`, with a store that finalizes; the hooks are left out.
  unfoldable pub expire_now : Maintenance → Store → Store
  expire_now m db =
      (finalize_task_tx texts key version_key merge metadata m.now none m.fresh
        (deadline_finalization m) db).0

  -- From the deadline on, which is stored if it is another one.
  unfoldable pub keep_deadline : Maintenance → TaskRow → ℕ → Store → Store
  keep_deadline m t d db =
      let stored = if is_same_deadline d t.deadline then db else set_task_deadline d db in
      if leb d m.now
      then expire_now m stored
      else if not (is_recurring t)
          && leb (task_wall_start m.created m.start_at m.now + task_progress_after) m.now
      then notify_task_lifecycle m t "progress" m.progress_text stored
      else stored

  unfoldable pub maintain_wall : Maintenance → TaskRow → Option ℕ → Store → Store
  maintain_wall m t none db = db
  maintain_wall m t (some d) db = keep_deadline m t d db

  -- One task in the loop of `maintainTaskDeadlines`.
  unfoldable pub maintain_row : Maintenance → TaskRow → Store → Store
  maintain_row m t db =
      if is_failed t.status
      then notify_task_lifecycle m t "deadline" m.deadline_text db
      else maintain_wall m t (task_wall_deadline t m.created m.start_at m.now m.limit) db

  -- `maintainTaskDeadlines`, as far as this task goes.
  unfoldable pub maintain_task_deadlines : Maintenance → Store → Store
  maintain_task_deadlines m db = elim db.task [
    | none ↦ db
    | some t ↦ if is_deadline_task db.journal t then maintain_row m t db else db
  ]
