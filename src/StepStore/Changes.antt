-- ===== src/StepStore/Changes.antt =====
-- What each operation does to the rows: nothing, one claim, or a write that starts nothing.
use blueship.Prelude.Int.{ℤ}
use blueship.Prelude.{ℕ, String, Bool, Option, List, ◌≡◌, ◌⊎◌, refl, false, arith, inl, inr}
use blueship.StepStore.{Row, Db, Checkpoint, update}
use blueship.StepStore.Ops.{
  fenced, write, claimable, claim_row, complete_row, checkpoint_row, claim_task_step,
  complete_task_step, checkpoint_task_step,
}
use blueship.StepStore.Failures.{
  fail_row, recover_row, resolve_row, lapsed, is_stuck, fail_task_step_after, recover_task_steps,
  resolve_stuck_task_steps,
}
use blueship.StepStore.Runs.{
  claim_graph_task, renew_graph_task, yield_graph_task, was_running, orphan_row,
}
use blueship.StepStore.Schedule.{
  Op, claim, checkpoint, complete, fail, recover, resolve, claim_graph, renew_graph, yield_graph,
  apply, is_claim,
}
use blueship.StepStore.Careful.{
  Careful, complete-Careful, checkpoint-Careful, fail-Careful, recover-Careful, orphan-Careful,
  resolve-Careful,
}

-- What an operation does that claims no step.
pub data Quiet (rows rows' : List Row) : Type 0 where
  kept : rows' ≡ rows → Quiet rows rows'
  written :
      (hit : Row → Bool) (change : Row → Row)
      → Careful hit change
      → rows' ≡ update hit change rows
      → Quiet rows rows'

pub data Change (rows rows' : List Row) : Type 0 where
  same : rows' ≡ rows → Change rows rows'
  careful :
      (hit : Row → Bool) (change : Row → Row)
      → Careful hit change
      → rows' ≡ update hit change rows
      → Change rows rows'
  claimed :
      (now : ℕ) (id : String) (run lease : ℕ)
      → rows' ≡ update (claimable now id rows) (claim_row now run lease) rows
      → Change rows rows'

abbrev Either : List Row → (Row → Bool) → (Row → Row) → List Row → Type 0
Either rows hit change rows' = (rows' ≡ rows) ⊎ (rows' ≡ update hit change rows)

write-steps :
    (hit : Row → Bool) (change : Row → Row) (db : Db)
    → Either db.steps hit change (write hit change db).0.steps
unfolding write
write-steps hit change db = ground arith

of_Either :
    (hit : Row → Bool) (change : Row → Row) (rows rows' : List Row)
    → Careful hit change
    → Either rows hit change rows'
    → Quiet rows rows'
of_Either hit change rows rows' c (inl e) = kept e
of_Either hit change rows rows' c (inr e) = written hit change c e

claim-steps :
    (now : ℕ) (ctx_run : Option ℕ) (id : String) (run lease : ℕ) (db : Db)
    → Either db.steps
        (claimable now id db.steps)
        (claim_row now run lease)
        (claim_task_step now ctx_run id run lease db).0.steps
unfolding claim_task_step
claim-steps now ctx_run id run lease db = ground arith

complete-steps :
    (now : ℕ) (ctx_run : Option ℕ) (id : String) (run : ℕ) (result : String) (db : Db)
    → Either db.steps
        (fenced now id run)
        (complete_row now result)
        (complete_task_step now ctx_run id run result db).0.steps
unfolding complete_task_step
complete-steps now ctx_run id run result db =
    ground (arith, write-steps (fenced now id run) (complete_row now result) db)

checkpoint-steps :
    (now : ℕ) (ctx_run : Option ℕ) (id : String) (run lease : ℕ) (cp : Option Checkpoint) (db : Db)
    → Either db.steps
        (fenced now id run)
        (checkpoint_row now lease cp)
        (checkpoint_task_step now ctx_run id run lease cp db).0.steps
unfolding checkpoint_task_step
checkpoint-steps now ctx_run id run lease cp db =
    ground (arith, write-steps (fenced now id run) (checkpoint_row now lease cp) db)

fail-steps :
    (now : ℕ) (ctx_run : Option ℕ) (id : String) (run : ℕ) (reason : String) (retryable : Bool)
    (delay : ℤ) (db : Db)
    → Either db.steps
        (fenced now id run)
        (fail_row now reason retryable delay)
        (fail_task_step_after now ctx_run id run reason retryable delay db).0.steps
unfolding fail_task_step_after
fail-steps now ctx_run id run reason retryable delay db =
    ground (arith, write-steps (fenced now id run) (fail_row now reason retryable delay) db)

recover-steps :
    (now : ℕ) (ctx_run : Option ℕ) (db : Db)
    → Either db.steps (lapsed now) recover_row (recover_task_steps now ctx_run db).0.steps
unfolding recover_task_steps
recover-steps now ctx_run db = ground arith

resolve-steps :
    (now : ℕ) (ctx_run : Option ℕ) (db : Db)
    → Either db.steps is_stuck (resolve_row now) (resolve_stuck_task_steps now ctx_run db).0.steps
unfolding resolve_stuck_task_steps
resolve-steps now ctx_run db = ground arith

claim_graph-steps :
    (now others run lease : ℕ) (db : Db)
    → Either db.steps was_running orphan_row (claim_graph_task now others run lease db).0.steps
unfolding claim_graph_task
claim_graph-steps now others run lease db = ground arith

renew-steps :
    (now : ℕ) (ctx_run : Option ℕ) (lease : ℕ) (db : Db)
    → (renew_graph_task now ctx_run lease db).0.steps ≡ db.steps
unfolding renew_graph_task
renew-steps now ctx_run lease db = ground arith

yield-steps :
    (now : ℕ) (ctx_run : Option ℕ) (next : ℕ) (db : Db)
    → (yield_graph_task now ctx_run next db).0.steps ≡ db.steps
unfolding yield_graph_task
yield-steps now ctx_run next db = ground arith

claimed_of_Either :
    (now : ℕ) (id : String) (run lease : ℕ) (rows rows' : List Row)
    → Either rows (claimable now id rows) (claim_row now run lease) rows'
    → Change rows rows'
claimed_of_Either now id run lease rows rows' (inl e) = same e
claimed_of_Either now id run lease rows rows' (inr e) = claimed now id run lease e

pub apply-Quiet : (op : Op) (db : Db) → is_claim op ≡ false → Quiet db.steps (apply op db).steps
unfolding apply
apply-Quiet (claim now c id run lease) db other = absurd (ground arith)
apply-Quiet (checkpoint now c id run lease cp) db other =
    of_Either _ _ _ _ (checkpoint-Careful now id run lease cp)
      (checkpoint-steps now c id run lease cp db)
apply-Quiet (complete now c id run result) db other =
    of_Either _ _ _ _ (complete-Careful now id run result) (complete-steps now c id run result db)
apply-Quiet (fail now c id run reason retryable delay) db other =
    of_Either _ _ _ _ (fail-Careful now id run reason retryable delay)
      (fail-steps now c id run reason retryable delay db)
apply-Quiet (recover now c) db other =
    of_Either _ _ _ _ (recover-Careful now) (recover-steps now c db)
apply-Quiet (resolve now c) db other =
    of_Either _ _ _ _ (resolve-Careful now) (resolve-steps now c db)
apply-Quiet (claim_graph now others run lease) db other =
    of_Either _ _ _ _ orphan-Careful (claim_graph-steps now others run lease db)
apply-Quiet (renew_graph now c lease) db other = kept (renew-steps now c lease db)
apply-Quiet (yield_graph now c next) db other = kept (yield-steps now c next db)

of_Quiet : (rows rows' : List Row) → Quiet rows rows' → Change rows rows'
of_Quiet rows rows' (kept e) = same e
of_Quiet rows rows' (written hit change c e) = careful hit change c e

pub apply-Change : (op : Op) (db : Db) → Change db.steps (apply op db).steps
unfolding apply
apply-Change (claim now c id run lease) db =
    claimed_of_Either now id run lease _ _ (claim-steps now c id run lease db)
apply-Change (checkpoint now c id run lease cp) db =
    of_Quiet _ _ (apply-Quiet (checkpoint now c id run lease cp) db refl)
apply-Change (complete now c id run result) db =
    of_Quiet _ _ (apply-Quiet (complete now c id run result) db refl)
apply-Change (fail now c id run reason retryable delay) db =
    of_Quiet _ _ (apply-Quiet (fail now c id run reason retryable delay) db refl)
apply-Change (recover now c) db = of_Quiet _ _ (apply-Quiet (recover now c) db refl)
apply-Change (resolve now c) db = of_Quiet _ _ (apply-Quiet (resolve now c) db refl)
apply-Change (claim_graph now others run lease) db =
    of_Quiet _ _ (apply-Quiet (claim_graph now others run lease) db refl)
apply-Change (renew_graph now c lease) db =
    of_Quiet _ _ (apply-Quiet (renew_graph now c lease) db refl)
apply-Change (yield_graph now c next) db =
    of_Quiet _ _ (apply-Quiet (yield_graph now c next) db refl)
