-- ===== src/StepStore/Schedule.antt =====
-- Any sequence of store operations, by any workers with any run ids, at any times. `Op` is the list
-- of the exported writes of internal/core/task_steps.go and task_run.go on an existing plan.
use blueship.Prelude.Int.{ℤ}
use blueship.Prelude.{ℕ, String, Bool, Option, List, [], ◌∷◌, true, false, not, ◌&&◌}
use blueship.StepStore.{Db, Checkpoint}
use blueship.StepStore.Ops.{claim_task_step, complete_task_step, checkpoint_task_step}
use blueship.StepStore.Failures.{fail_task_step_after, recover_task_steps, resolve_stuck_task_steps}
use blueship.StepStore.Runs.{claim_graph_task, renew_graph_task, yield_graph_task}

pub data Op : Type 0 where
  claim : (now : ℕ) (ctx_run : Option ℕ) (id : String) (run lease : ℕ) → Op
  checkpoint :
      (now : ℕ) (ctx_run : Option ℕ) (id : String) (run lease : ℕ) (cp : Option Checkpoint) → Op
  complete : (now : ℕ) (ctx_run : Option ℕ) (id : String) (run : ℕ) (result : String) → Op
  fail :
      (now : ℕ) (ctx_run : Option ℕ) (id : String) (run : ℕ) (reason : String) (retryable : Bool)
      (delay : ℤ)
      → Op
  recover resolve : (now : ℕ) (ctx_run : Option ℕ) → Op
  claim_graph : (now others run lease : ℕ) → Op
  renew_graph : (now : ℕ) (ctx_run : Option ℕ) (lease : ℕ) → Op
  yield_graph : (now : ℕ) (ctx_run : Option ℕ) (next : ℕ) → Op

abbrev pub is_claim : Op → Bool
is_claim (claim now ctx_run id run lease) = true
is_claim _ = false

unfoldable pub no_claim : List Op → Bool
no_claim [] = true
no_claim (op ∷ ops) = not (is_claim op) && no_claim ops

unfoldable pub apply : Op → Db → Db
apply (claim now ctx_run id run lease) db = (claim_task_step now ctx_run id run lease db).0
apply (checkpoint now ctx_run id run lease cp) db =
    (checkpoint_task_step now ctx_run id run lease cp db).0
apply (complete now ctx_run id run result) db = (complete_task_step now ctx_run id run result db).0
apply (fail now ctx_run id run reason retryable delay) db =
    (fail_task_step_after now ctx_run id run reason retryable delay db).0
apply (recover now ctx_run) db = (recover_task_steps now ctx_run db).0
apply (resolve now ctx_run) db = (resolve_stuck_task_steps now ctx_run db).0
apply (claim_graph now others run lease) db = (claim_graph_task now others run lease db).0
apply (renew_graph now ctx_run lease) db = (renew_graph_task now ctx_run lease db).0
apply (yield_graph now ctx_run next) db = (yield_graph_task now ctx_run next db).0

unfoldable pub run_ops : List Op → Db → Db
unfolding apply
run_ops [] db = db
run_ops (op ∷ ops) db = run_ops ops (apply op db)
