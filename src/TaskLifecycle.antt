-- ===== src/TaskLifecycle.antt =====
-- The life of one task in the store: its row in `agent_tasks` and what hangs on it
-- (internal/core/agent_store.go, agent_finalize.go, agent_submission.go, agent_checkpoint.go,
-- agent_deadline.go, task_control.go, task_restart.go). Identifiers and instants are numbers; the
-- columns that no write here reads are left out. One reading of the clock serves a transaction, and a
-- transaction that fails leaves the store as it was; faults of the database are not modelled.
pub mod Draft
pub mod Finalize
pub mod Writes
pub mod Submissions
pub mod Control
pub mod Schedule
pub mod Deadlines
pub mod Dated
pub mod Excuses
pub mod Overdue
pub mod Claims
pub mod Closed
pub mod Announced
pub mod Outcome
pub mod Finalized
pub mod Sealed
pub mod Restarted
mod Examples
use blueship.StepStore
use blueship.StepStore.{TaskStatus, TaskRun, Field}
use blueship.Outbox.{Ref, Journal}
use blueship.Prelude.{
  ℕ, String, Bool, true, false, not, ◌&&◌, ◌||◌, Option, none, some, List, [], ◌∷◌, ◌==◌,
  if◌then◌else◌, str_eq, is_blank,
}

pub record TaskRow : Type 0 where
  pub id : ℕ
  pub user_id : ℕ
  pub soul_id : ℕ
  pub status : TaskStatus
  pub strategy : String
  pub schedule : Option String
  pub cadence : Option String
  pub deadline : Option ℕ
  pub last_run_at : Option ℕ
  pub executor_version : ℕ
  pub iteration : ℕ
  pub max_iterations : ℕ
  pub progress : String
  pub result : Option String
  pub error_message : Option String
  pub completed_at : Option ℕ

pub record TaskArtifact : Type 0 where
  pub version : ℕ
  pub outcome : String
  pub body : String
  pub reason : String

-- A row of `agent_task_steps` with the columns that a finalization reads beside those of `StepStore`.
pub record StepDraft : Type 0 where
  pub row : StepStore.Row
  pub goal : String
  pub review_reason : Field
  pub last_candidate_review : Field

pub record Iteration : Type 0 where
  pub number : ℕ
  pub output : Option String

pub record Submission : Type 0 where
  pub output : String
  pub review_attempts : ℕ
  pub next_review_at : ℕ
  pub last_error : String

-- `checkpoint` is the output of the checkpoint, `restart` the row of `agent_task_restarts` with the
-- task that it made.
pub record Store : Type 0 where
  pub task : Option TaskRow
  pub run : Option TaskRun
  pub steps : List StepDraft
  pub artifacts : List TaskArtifact
  pub submission : Option Submission
  pub checkpoint : Option String
  pub iterations : List Iteration
  pub journal : Journal
  pub dismissed : Bool
  pub restart : Option TaskRow

pub data StoreError : Type 0 where
  no_rows invalid_outcome claim_lost no_result no_explanation bad_delivery task_active : StoreError
  not_terminal restart_uncertain not_recurring invalid_checkpoint not_running : StoreError

pub data StoreResult (A : Type 0) : Type 0 where
  ok : A → StoreResult A
  err : StoreError → StoreResult A

abbrev pub is_none : Option String → Bool
is_none none = true
is_none (some s) = false

-- `task.Schedule != nil || task.Cadence != nil || task.Strategy == StrategyRecurring`
unfoldable pub is_recurring : TaskRow → Bool
is_recurring t =
    not (is_none t.schedule) || not (is_none t.cadence) || str_eq t.strategy "recurring"

unfoldable pub is_open : TaskStatus → Bool
is_open TaskStatus.pending = true
is_open TaskStatus.running = true
is_open TaskStatus.paused = true
is_open _ = false

unfoldable pub is_terminal : TaskStatus → Bool
is_terminal TaskStatus.done = true
is_terminal TaskStatus.failed = true
is_terminal TaskStatus.canceled = true
is_terminal _ = false

-- `jsonbObject`
unfoldable pub jsonb_object : String → String
jsonb_object raw = if is_blank raw then "{}" else raw

-- `TaskRunsToCompletion`
unfoldable pub task_runs_to_completion : TaskRow → Bool
task_runs_to_completion t = t.executor_version == 2 && not (is_recurring t)
