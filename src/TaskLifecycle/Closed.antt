-- ===== src/TaskLifecycle/Closed.antt =====
-- A task that is done, failed or cancelled takes no write of its steps or its run (`lockTaskExecution`).
use blueship.Prelude.{ℕ, Bool, true, false, Option, none, some, ◌≡◌, refl, arith}
use blueship.StepStore.{Db, Task}
use blueship.StepStore.Ops.{
  lock_task_execution, claim_task_step, complete_task_step, checkpoint_task_step,
}
use blueship.StepStore.Failures.{fail_task_step_after, recover_task_steps, resolve_stuck_task_steps}
use blueship.StepStore.Runs.{admissible, claim_graph_task, renew_graph_task, yield_graph_task}
use blueship.StepStore.Schedule.{
  Op, claim, checkpoint, complete, fail, recover, resolve, claim_graph, renew_graph, yield_graph,
  apply,
}
use blueship.TaskLifecycle.{TaskRow, is_terminal}
use blueship.TaskLifecycle.Schedule.{view_task, with_task}

lock-closed :
    (now : ℕ) (c claim_at : Option ℕ) (deadline : Bool) (db : Db) (t : Task)
    → db.task ≡ some t
    → is_terminal t.status ≡ true
    → lock_task_execution now c claim_at deadline db ≡ false
unfolding lock_task_execution is_terminal
lock-closed now c claim_at deadline db t e closed = rw (e, lock_task_execution) (ground arith)

admissible-closed : (now : ℕ) (t : Task) → is_terminal t.status ≡ true → admissible now t ≡ false
unfolding admissible is_terminal
admissible-closed now t closed = ground arith

-- No operation on its steps or its run changes anything of a closed task.
pub apply-closed :
    (op : Op) (db : Db) (t : Task)
    → db.task ≡ some t
    → is_terminal t.status ≡ true
    → apply op db ≡ db
unfolding apply claim_task_step complete_task_step checkpoint_task_step fail_task_step_after
    recover_task_steps resolve_stuck_task_steps claim_graph_task renew_graph_task yield_graph_task
apply-closed (claim now c id run lease) db t e closed =
    let shut = lock-closed now c none true db t e closed in ground arith
apply-closed (checkpoint now c id run lease cp) db t e closed =
    let shut = lock-closed now c none true db t e closed in ground arith
apply-closed (complete now c id run result) db t e closed =
    let shut = lock-closed now c none true db t e closed in ground arith
apply-closed (fail now c id run reason retryable delay) db t e closed =
    let shut = lock-closed now c none false db t e closed in ground arith
apply-closed (recover now c) db t e closed =
    let shut = lock-closed now c none false db t e closed in ground arith
apply-closed (resolve now c) db t e closed =
    let shut = lock-closed now c none false db t e closed in ground arith
apply-closed (claim_graph now others run lease) db t e closed =
    let shut = admissible-closed now t closed in ground arith
apply-closed (renew_graph now c lease) db t e closed =
    let shut = lock-closed now c none true db t e closed in ground arith
apply-closed (yield_graph now c next) db t e closed =
    let shut = lock-closed now c none false db t e closed in ground arith

-- What is seen of a task and put back is the same task.
pub with_task-view :
    (start_at : Option ℕ) (t : Option TaskRow) → with_task (view_task start_at t) t ≡ t
with_task-view start_at none = refl
with_task-view start_at (some t) = refl
