-- ===== src/TaskLifecycle/Finalize.antt =====
-- `FinalizeTask` and `finalizeTaskTx` (internal/core/agent_finalize.go): the result, the terminal
-- state and the intent to deliver, in one transaction.
use blueship.StepStore.{TaskStatus}
use blueship.StepStore.Ops.{require_task_run}
use blueship.Outbox.{Ref, Journal, normalize_task_delivery_refs, sort_task_delivery_refs}
use blueship.Outbox.Ops.{queue_attempt}
use blueship.TaskLifecycle.{
  TaskRow, jsonb_object, TaskArtifact, Store, StoreResult, ok, err, no_rows, invalid_outcome,
  claim_lost, no_result, no_explanation, bad_delivery, is_open, task_runs_to_completion,
}
use blueship.TaskLifecycle.Draft.{Texts, clean_task_draft, draft_body}
use blueship.Prelude.{
  ℕ, ◌+◌, String, Bool, true, false, not, ◌&&◌, ◌||◌, Option, none, some, List, [], ◌∷◌, ◌++◌, ◌==◌,
  ltb, max, if◌then◌else◌, str_eq, is_blank, trim_space,
}

-- `TaskFinalization`
pub record TaskFinalization : Type 0 where
  pub outcome : String
  pub body : String
  pub reason : String
  pub unverified_draft_fmt : String
  pub empty_body : String
  pub notify : String
  pub empty_notify : String
  pub progress : String
  pub pending_deliveries : List Ref
  pub claim_started_at : Option ℕ
  pub expired_at : Option ℕ

unfoldable pub is_outcome : String → Bool
is_outcome s =
    str_eq s "completed" || str_eq s "partial" || str_eq s "blocked" || str_eq s "cancelled"

-- `TaskTerminalStatus`
unfoldable pub task_terminal_status : TaskRow → String → TaskStatus
task_terminal_status t outcome =
    if str_eq outcome "completed" || (str_eq outcome "partial" && task_runs_to_completion t)
    then TaskStatus.done
    else if str_eq outcome "cancelled"
    then TaskStatus.canceled
    else TaskStatus.failed

abbrev is_running_status : TaskStatus → Bool
is_running_status TaskStatus.running = true
is_running_status _ = false

abbrev is_done_status : TaskStatus → Bool
is_done_status TaskStatus.done = true
is_done_status _ = false

abbrev is_same_time : ℕ → Option ℕ → Bool
is_same_time c none = false
is_same_time c (some t) = t == c

-- The claim of a worker that is not current.
unfoldable pub lost_claim : Option ℕ → TaskRow → Bool
lost_claim none t = false
lost_claim (some c) t = not (is_running_status t.status) || not (is_same_time c t.last_run_at)

-- `task.Deadline == nil || task.Deadline.After(now)`
abbrev pub before_deadline : ℕ → Option ℕ → Bool
before_deadline now none = true
before_deadline now (some d) = ltb now d

unfoldable pub not_expired : Option ℕ → TaskRow → Bool
not_expired none t = false
not_expired (some now) t = before_deadline now t.deadline

abbrev is_given : Option ℕ → Bool
is_given none = false
is_given (some n) = true

-- COALESCE(max(version) + 1, 1)
unfoldable pub last_version : List TaskArtifact → ℕ
last_version [] = 0
last_version (a ∷ artifacts) = max a.version (last_version artifacts)

-- NULLIF($4, '')
abbrev null_if_empty : String → Option String
null_if_empty s = if str_eq s "" then none else some s

-- A graph's worker whose run is not current; the owner's cancellation and the deadline need none.
unfoldable pub lost_run : ℕ → Option ℕ → TaskFinalization → TaskRow → Store → Bool
lost_run now ctx_run given t db =
    t.executor_version == 2
    && not (is_given given.expired_at)
    && not (str_eq given.outcome "cancelled")
    && not (require_task_run now ctx_run db.run)

module _ (texts : Texts) (key : List Ref → String) (version_key : ℕ → String)
    (merge : String → String → String) (metadata : String → ℕ → String → String) where
  unfoldable pub result_ref : ℕ → Ref
  result_ref v = record { input_id = "task_result"; item_key = version_key v }

  -- The outbox's part: no text, no attempt.
  unfoldable pub notified : ℕ → ℕ → TaskRow → ℕ → String → List Ref → Journal → Option Journal
  notified now fresh t version notify pending j =
      if is_blank notify
      then some j
      else elim (normalize_task_delivery_refs (pending ++ result_ref version ∷ [])) [
        | none ↦ none
        | some refs ↦
            queue_attempt key now fresh t.id t.user_id notify (sort_task_delivery_refs refs) j
      ]

  abbrev pub finished_row : ℕ → TaskRow → TaskFinalization → String → String → ℕ → TaskRow
  finished_row now t given outcome body version = record t {
    status = task_terminal_status t outcome;
    result = some body;
    error_message =
        null_if_empty
          (if is_done_status (task_terminal_status t outcome) then "" else given.reason);
    completed_at = some now;
    progress =
        merge (merge t.progress (jsonb_object given.progress))
          (metadata outcome version given.reason);
  }

  -- The result, the task and the outbox, or nothing of them.
  unfoldable pub store_result :
      ℕ
      → TaskFinalization
      → TaskArtifact
      → TaskRow
      → Option Journal
      → Store
      → Store × StoreResult (Option TaskArtifact)
  store_result now given a t none db = (db, err bad_delivery)
  store_result now given a t (some j) db = (
    record db {
      task = some (finished_row now t given a.outcome a.body a.version);
      artifacts = a ∷ db.artifacts;
      journal = j;
    },
    ok (some a),
  )

  -- From the INSERT of the artifact on.
  unfoldable pub publish :
      ℕ
      → ℕ
      → TaskFinalization
      → String
      → String
      → String
      → TaskRow
      → Store
      → Store × StoreResult (Option TaskArtifact)
  publish now fresh given outcome body notify t db =
      let version = last_version db.artifacts + 1 in
      let artifact : TaskArtifact = record {
        version = version;
        outcome = outcome;
        body = body;
        reason = given.reason;
      } in
      let text = if str_eq outcome "completed" && is_blank notify then body else notify in
      store_result now given artifact t
        (notified now fresh t version text given.pending_deliveries db.journal) db

  -- Without a draft the result is the explanation, and a partial outcome is a blocked one.
  unfoldable pub explain :
      ℕ → ℕ → TaskFinalization → TaskRow → Store → Store × StoreResult (Option TaskArtifact)
  explain now fresh given t db =
      if str_eq (trim_space given.empty_body) ""
      then (db, err no_explanation)
      else publish now fresh given
          (if str_eq given.outcome "partial" then "blocked" else given.outcome)
          (trim_space given.empty_body) given.empty_notify t db

  unfoldable pub finalize_body :
      ℕ → ℕ → TaskFinalization → TaskRow → Store → Store × StoreResult (Option TaskArtifact)
  finalize_body now fresh given t db =
      let body = draft_body texts given.unverified_draft_fmt given.body t db in
      if str_eq (clean_task_draft texts given.body) "" && str_eq given.outcome "completed"
      then (db, err no_result)
      else if str_eq body ""
      then explain now fresh given t db
      else publish now fresh given given.outcome body given.notify t db

  -- The checks on the task's row.
  unfoldable pub finalize_row :
      ℕ
      → Option ℕ
      → ℕ
      → TaskFinalization
      → TaskRow
      → Store
      → Store × StoreResult (Option TaskArtifact)
  finalize_row now ctx_run fresh given t db =
      if not (is_open t.status)
      then (db, ok none)
      else if lost_run now ctx_run given t db
      then (db, err claim_lost)
      else if lost_claim given.claim_started_at t
      then (db, err claim_lost)
      else if not_expired given.expired_at t
      then (db, ok none)
      else if str_eq given.outcome "completed" && not (before_deadline now t.deadline)
      then (db, err claim_lost)
      else finalize_body now fresh given t db

  unfoldable pub finalize_selected :
      ℕ
      → Option ℕ
      → ℕ
      → TaskFinalization
      → Option TaskRow
      → Store
      → Store × StoreResult (Option TaskArtifact)
  finalize_selected now ctx_run fresh given none db = (db, err no_rows)
  finalize_selected now ctx_run fresh given (some t) db = finalize_row now ctx_run fresh given t db

  -- `finalizeTaskTx`; the artifact is there when the task has changed. `fresh` is the `uuid.New()`.
  unfoldable pub finalize_task_tx :
      ℕ → Option ℕ → ℕ → TaskFinalization → Store → Store × StoreResult (Option TaskArtifact)
  finalize_task_tx now ctx_run fresh given db =
      if not (is_outcome given.outcome)
      then (db, err invalid_outcome)
      else finalize_selected now ctx_run fresh given db.task db
