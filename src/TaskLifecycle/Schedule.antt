-- ===== src/TaskLifecycle/Schedule.antt =====
-- Any sequence of the store's writes on one task. `StoreOp` has the exported writes of a task's row,
-- its result, its submission and its checkpoint, the writes of `StepStore` on its steps and its
-- run, and the writes of senders to the journal, which may be any; what those write to the column `progress` is left out. Four writes have no guard on the status:
-- `set_running`, `fail_task`, `reset_for_next_run` and `update_shaping`.
use blueship.StepStore
use blueship.StepStore.{TaskStatus}
use blueship.StepStore.Schedule.{Op, apply}
use blueship.Outbox.{Ref, Journal}
use blueship.TaskLifecycle.{TaskRow, StepDraft, Iteration, Store}
use blueship.TaskLifecycle.Draft.{Texts}
use blueship.TaskLifecycle.Finalize.{TaskFinalization, finalize_task_tx}
use blueship.TaskLifecycle.Writes.{
  set_running, try_set_running, update_progress, complete, complete_exhausted, set_pending,
  set_pending_for_notification_retry, fail_task, cancel_legacy, reset_stale, reset_for_next_run,
  approve, pause_task, wake_paused_by_peer_task, wake_stale_paused, set_task_deadline, expire_task,
  update_shaping,
}
use blueship.TaskLifecycle.Submissions.{
  save_task_submission, defer_task_verification, reject_task_submission, checkpoint_task,
  record_iteration,
}
use blueship.TaskLifecycle.Control.{cancel_task, dismiss, restart_task, resume_task}
use blueship.Prelude.{ℕ, String, Bool, true, false, Option, none, some, List, [], ◌∷◌}

pub data StoreOp : Type 0 where
  finalize : (now : ℕ) (ctx_run : Option ℕ) (fresh : ℕ) (given : TaskFinalization) → StoreOp
  cancel : (now fresh user soul id : ℕ) (empty_body : String) → StoreOp
  dismissal : (user soul id : ℕ) → StoreOp
  restart : (now child user soul id budget : ℕ) → StoreOp
  resume : (user soul id : ℕ) → StoreOp
  try_running : (now : ℕ) → StoreOp
  progress : (progress : String) → StoreOp
  completion : (now : ℕ) (result : String) → StoreOp
  exhausted : (now : ℕ) → StoreOp
  pending notification_retry : StoreOp
  legacy_cancel : (now : ℕ) → StoreOp
  stale : (limit : ℕ) → StoreOp
  approval : StoreOp
  pause : (progress : String) → StoreOp
  wake_by_peer : (peer : String) → StoreOp
  wake_stale : (limit : ℕ) → StoreOp
  deadline : (deadline : ℕ) → StoreOp
  expire : (now : ℕ) → StoreOp
  submit : (now claim : ℕ) (output : String) → StoreOp
  defer : (claim : ℕ) (reason : String) (next_at : ℕ) → StoreOp
  reject : (claim : ℕ) (progress : String) → StoreOp
  checkpoint : (claim iteration : ℕ) (session phase output progress : String) → StoreOp
  iteration : Iteration → StoreOp
  graph : (start_at : Option ℕ) (op : Op) → StoreOp
  running : (now : ℕ) → StoreOp
  failure : (reason : String) → StoreOp
  next_run : StoreOp
  shaping : (max_iterations : ℕ) → StoreOp
  -- what a sender does to the journal, or `notifyTaskLifecycle`
  sender : (change : Journal → Journal) → StoreOp

-- A write without a guard on the status.
unfoldable pub is_unguarded : StoreOp → Bool
is_unguarded (running now) = true
is_unguarded (failure reason) = true
is_unguarded next_run = true
is_unguarded (shaping n) = true
is_unguarded _ = false

-- The rows that the step store reads and writes, and back.
abbrev pub view_row : Option ℕ → TaskRow → StepStore.Task
view_row start_at t = record {
  status = t.status;
  deadline = t.deadline;
  start_at = start_at;
  last_run_at = t.last_run_at;
  executor_version = t.executor_version;
}

abbrev pub view_task : Option ℕ → Option TaskRow → Option StepStore.Task
view_task start_at none = none
view_task start_at (some t) = some (view_row start_at t)

abbrev pub view_steps : List StepDraft → List StepStore.Row
view_steps [] = []
view_steps (s ∷ steps) = s.row ∷ view_steps steps

abbrev pub view : Option ℕ → Store → StepStore.Db
view start_at db = record {
  task = view_task start_at db.task;
  run = db.run;
  steps = view_steps db.steps;
}

abbrev pub with_task : Option StepStore.Task → Option TaskRow → Option TaskRow
with_task (some u) (some t) = some (record t { status = u.status; last_run_at = u.last_run_at })
with_task none t = t
with_task (some u) none = none

abbrev pub with_steps : List StepStore.Row → List StepDraft → List StepDraft
with_steps (r ∷ rows) (s ∷ steps) = record s { row = r } ∷ with_steps rows steps
with_steps [] steps = steps
with_steps (r ∷ rows) [] = []

abbrev pub with_db : StepStore.Db → Store → Store
with_db d db = record db {
  task = with_task d.task db.task;
  run = d.run;
  steps = with_steps d.steps db.steps;
}

-- What the senders among the writes do to the journal.
unfoldable pub sender_of : StoreOp → Journal → Journal
sender_of (sender change) j = change j
sender_of _ j = j

unfoldable pub run_senders : List StoreOp → Journal → Journal
run_senders [] j = j
run_senders (op ∷ ops) j = run_senders ops (sender_of op j)

module _ (texts : Texts) (key : List Ref → String) (version_key : ℕ → String)
    (merge : String → String → String) (metadata : String → ℕ → String → String)
    (peer_of : String → Option String) where
  unfoldable pub apply_op : StoreOp → Store → Store
  apply_op (finalize now ctx_run fresh given) db =
      (finalize_task_tx texts key version_key merge metadata now ctx_run fresh given db).0
  apply_op (cancel now fresh user soul id empty_body) db =
      (cancel_task texts key version_key merge metadata now fresh user soul id empty_body db).0
  apply_op (dismissal user soul id) db = (dismiss user soul id db).0
  apply_op (restart now child user soul id budget) db =
      (restart_task now child user soul id budget db).0
  apply_op (resume user soul id) db = (resume_task user soul id db).0
  apply_op (try_running now) db = (try_set_running now db).0
  apply_op (progress p) db = update_progress p db
  apply_op (completion now result) db = (complete now result db).0
  apply_op (exhausted now) db = complete_exhausted now db
  apply_op pending db = set_pending db
  apply_op notification_retry db = set_pending_for_notification_retry db
  apply_op (legacy_cancel now) db = cancel_legacy now db
  apply_op (stale limit) db = reset_stale limit db
  apply_op approval db = approve db
  apply_op (pause p) db = pause_task p db
  apply_op (wake_by_peer peer) db = wake_paused_by_peer_task peer_of peer db
  apply_op (wake_stale limit) db = wake_stale_paused limit db
  apply_op (deadline d) db = set_task_deadline d db
  apply_op (expire now) db = (expire_task now db).0
  apply_op (submit now claim output) db = (save_task_submission now claim output db).0
  apply_op (defer claim reason next_at) db =
      (defer_task_verification merge claim reason next_at db).0
  apply_op (reject claim p) db = (reject_task_submission claim p db).0
  apply_op (checkpoint claim n session phase output p) db =
      (checkpoint_task merge claim n session phase output p db).0
  apply_op (iteration i) db = record_iteration i db
  apply_op (graph start_at op) db = with_db (apply op (view start_at db)) db
  apply_op (running now) db = set_running now db
  apply_op (failure reason) db = fail_task reason db
  apply_op next_run db = reset_for_next_run db
  apply_op (shaping n) db = update_shaping n db
  apply_op (sender change) db = record db { journal = change db.journal }

  unfoldable pub run_all : List StoreOp → Store → Store
  run_all [] db = db
  run_all (op ∷ ops) db = run_all ops (apply_op op db)
