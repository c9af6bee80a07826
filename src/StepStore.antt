-- ===== src/StepStore.antt =====
-- The rows behind a graph task: tables `agent_task_steps` and `agent_task_runs` and the columns of
-- `agent_tasks` that the step operations read (internal/core/task_steps.go, task_run.go;
-- internal/migrate/sql/026_agent_task_steps.sql for the columns and their CHECK constraints).
-- A database holds one task and its steps; identifiers and instants are numbers (milliseconds).
-- One reading of `clock_timestamp()` serves a whole transaction. A transaction that fails leaves
-- the database as it was; faults of the database itself are not modelled.
pub mod Ops
pub mod Failures
pub mod Runs
pub mod Invariant
pub mod Claims
pub mod Schedule
pub mod Careful
pub mod Changes
pub mod Safety
pub mod Fencing
pub mod Save
mod Examples
use blueship.TaskSteps.{PlanError}
use blueship.Prelude.{
  ℕ, suc, String, Bool, true, false, not, ◌&&◌, ◌||◌, Option, none, some, List, [], ◌∷◌, ◌==◌, leb,
  ltb, if◌then◌else◌, str_eq, btrim, length,
}

-- CHECK (kind IN ('read','action','finalize'))
pub data Kind : Type 0 where
  read action finalize : Kind

-- CHECK (status IN ('pending','running','done','blocked','reconciliation'))
pub data Status : Type 0 where
  pending running done blocked reconciliation : Status

unfoldable pub is_read : Kind → Bool
is_read read = true
is_read _ = false

unfoldable pub is_finalize : Kind → Bool
is_finalize finalize = true
is_finalize _ = false

unfoldable pub is_pending : Status → Bool
is_pending pending = true
is_pending _ = false

unfoldable pub is_running : Status → Bool
is_running running = true
is_running _ = false

unfoldable pub is_done : Status → Bool
is_done done = true
is_done _ = false

-- A field of a JSON object: missing or null, a string, or the text of another value.
pub data Field : Type 0 where
  absent : Field
  text other : String → Field

-- The parts of the checkpoint that the queries read; `rest` is the remaining text.
pub record Checkpoint : Type 0 where
  pub candidate_ready : Field
  pub phase : Field
  pub output : Field
  pub last_candidate : Field
  pub pending_tool : Field
  pub rest : String

pub record Row : Type 0 where
  pub id : String
  pub kind : Kind
  pub tools : List String
  pub dependencies : List String
  pub status : Status
  pub result : String
  pub checkpoint : Checkpoint
  pub next_attempt_at : ℕ
  pub last_error : String
  pub attempts : ℕ
  pub max_attempts : ℕ
  pub run_id : Option ℕ
  pub lease_until : Option ℕ
  pub heartbeat_at : Option ℕ
  pub started_at : Option ℕ
  pub completed_at : Option ℕ
  pub progress_at : Option ℕ

pub data TaskStatus : Type 0 where
  pending running paused done failed canceled : TaskStatus

pub record Task : Type 0 where
  pub status : TaskStatus
  pub deadline : Option ℕ
  pub start_at : Option ℕ
  pub last_run_at : Option ℕ
  pub executor_version : ℕ

pub record TaskRun : Type 0 where
  pub run_id : ℕ
  pub lease_until : ℕ
  pub heartbeat_at : ℕ
  pub next_attempt_at : ℕ
  pub started_at : ℕ

pub record Db : Type 0 where
  pub task : Option Task
  pub run : Option TaskRun
  pub steps : List Row

pub data Error : Type 0 where
  invalid_lease claim_lost requires_result running_steps step_exists invalid_kind : Error
  invalid_plan : PlanError → Error

pub data Result (A : Type 0) : Type 0 where
  ok : A → Result A
  err : Error → Result A

-- `checkpoint->>'key'`
unfoldable pub text_of : Field → Option String
text_of absent = none
text_of (text s) = some s
text_of (other s) = some s

unfoldable pub text_is : Field → String → Bool
unfolding text_of
text_is f s = elim (text_of f) [ none ↦ false | some t ↦ str_eq t s ]

unfoldable pub is_nonblank_text : Field → Bool
is_nonblank_text (text s) = not (str_eq (btrim s) "")
is_nonblank_text _ = false

unfoldable pub is_absent : Field → Bool
is_absent absent = true
is_absent _ = false

-- The COALESCE of `stepNeedsReconciliationSQL`: a saved candidate that only awaits verification.
unfoldable pub has_candidate : Checkpoint → Bool
has_candidate c =
    text_is c.candidate_ready "true"
    && (text_is c.phase "verification" || text_is c.phase "verified")
    && is_nonblank_text c.output
    && is_absent c.pending_tool

abbrev is_empty : List String → Bool
is_empty [] = true
is_empty (_ ∷ _) = false

-- `stepNeedsReconciliationSQL`
unfoldable pub needs_reconciliation : Row → Bool
needs_reconciliation r =
    not (is_read r.kind)
    && not (is_finalize r.kind && is_empty r.tools)
    && not (has_candidate r.checkpoint)

-- `lease_until>clock_timestamp()` and `lease_until<=clock_timestamp()`; a NULL is neither.
unfoldable pub is_live : ℕ → Option ℕ → Bool
is_live now none = false
is_live now (some t) = ltb now t

unfoldable pub is_expired : ℕ → Option ℕ → Bool
is_expired now none = false
is_expired now (some t) = leb t now

-- UPDATE … WHERE: every matching row is replaced.
unfoldable pub update : (Row → Bool) → (Row → Row) → List Row → List Row
update hit change [] = []
update hit change (r ∷ rs) = (if hit r then change r else r) ∷ update hit change rs

unfoldable pub affected : (Row → Bool) → List Row → ℕ
affected hit [] = 0
affected hit (r ∷ rs) = let n = affected hit rs in if hit r then suc n else n

unfoldable pub find_row : (Row → Bool) → List Row → Option Row
find_row hit [] = none
find_row hit (r ∷ rs) = if hit r then some r else find_row hit rs
