-- ===== src/StepStore/Fencing.antt =====
-- A new coordinator fences the workers of the one before it (`ClaimGraphTask`).
use blueship.Prelude.{
  ℕ, String, Bool, true, false, Option, none, some, List, [], ◌∷◌, ◌≡◌, ◌≢◌, refl, Bool-cases,
  Option-cases, inl, inr, arith, is_blank,
}
use blueship.Prelude.Int.{ℤ}
use blueship.StepStore.{
  Row, Db, Task, TaskRun, TaskStatus, Checkpoint, Error, ok, err, requires_result, claim_lost,
  invalid_lease, is_running, update, affected,
}
use blueship.StepStore.Ops.{
  lock_task_execution, fenced, write, claim_task_step, complete_task_step, checkpoint_task_step,
  valid_lease,
}
use blueship.StepStore.Failures.{
  recovered_status, fail_task_step_after, recover_task_steps, resolve_stuck_task_steps,
}
use blueship.StepStore.Runs.{
  was_running, orphan_row, any_running, next_run, admissible, claim_graph_task, renew_graph_task,
  yield_graph_task,
}
use blueship.StepStore.Schedule.{
  Op, claim, checkpoint, complete, fail, recover, resolve, claim_graph, renew_graph, yield_graph,
  apply, is_claim, no_claim, run_ops,
}
use blueship.StepStore.Careful.{Careful}
use blueship.StepStore.Changes.{Quiet, kept, written, apply-Quiet}

-- What a successful takeover leaves: a version 2 task, the new run, and rewritten steps.
record Taken (run : ℕ) (db' : Db) : Type 0 where
  task : Task
  holds : db'.task ≡ some task
  version : task.executor_version ≡ 2
  current : TaskRun
  run_is : db'.run ≡ some current
  run_id : current.run_id ≡ run
  rows : List Row
  steps : db'.steps ≡ update was_running orphan_row rows

next_run-id :
    (now run lease : ℕ) (old : Option TaskRun) {r : TaskRun}
    → next_run now run lease old ≡ some r
    → r.run_id ≡ run
unfolding next_run
next_run-id now run lease none h = ground arith
next_run-id now run lease (some o) h = ground arith

claim_graph-Taken :
    (now others run lease : ℕ) (db db' : Db) (r : TaskRun)
    → claim_graph_task now others run lease db ≡ (db', ok (some r))
    → Taken run db'
claim_graph-Taken now others run lease db db' r h = elim (Option-cases db.task) [
  | inl e ↦ absurd (unfold claim_graph_task in ground arith)
  | inr (t, e) ↦
      let version : t.executor_version ≡ 2 = unfold claim_graph_task admissible in ground arith in
      let fresh : next_run now run lease db.run ≡ some r =
        unfold claim_graph_task in ground arith in
      let steps : db'.steps ≡ update was_running orphan_row db.steps =
        unfold claim_graph_task in ground arith in
      let current : db'.run ≡ some r = unfold claim_graph_task in ground arith in
      let task : db'.task
          ≡ some (record t { status = TaskStatus.running; last_run_at = some now }) =
        unfold claim_graph_task in ground arith in
      record {
        task = record t { status = TaskStatus.running; last_run_at = some now };
        holds = task;
        version = version;
        current = r;
        run_is = current;
        run_id = next_run-id now run lease db.run fresh;
        rows = db.steps;
        steps = steps;
      }
]

no_running : (rows : List Row) → any_running (update was_running orphan_row rows) ≡ false
unfolding any_running update orphan_row recovered_status is_running
no_running [] = refl
no_running (r ∷ rows) = ground (arith, no_running rows)

affected_none :
    (now : ℕ) (id : String) (run : ℕ) (rows : List Row)
    → any_running rows ≡ false
    → affected (fenced now id run) rows ≡ 0
unfolding any_running affected fenced
affected_none now id run [] h = refl
affected_none now id run (r ∷ rows) h = ground (arith, affected_none now id run rows)

-- A call whose context does not carry `run`.
abbrev pub IsStale : ℕ → Op → Type 0
IsStale run (claim now c id r l) = c ≢ some run
IsStale run (checkpoint now c id r l cp) = c ≢ some run
IsStale run (complete now c id r res) = c ≢ some run
IsStale run (fail now c id r reason retry delay) = c ≢ some run
IsStale run (recover now c) = c ≢ some run
IsStale run (resolve now c) = c ≢ some run
IsStale run (claim_graph now others r l) = ⊥
IsStale run (renew_graph now c l) = c ≢ some run
IsStale run (yield_graph now c next) = c ≢ some run

stale_lock :
    (run now : ℕ) (c claim_at : Option ℕ) (deadline : Bool) (db' : Db)
    → Taken run db'
    → c ≢ some run
    → lock_task_execution now c claim_at deadline db' ≡ false
unfolding lock_task_execution
stale_lock run now none claim_at deadline db' t stale =
    rw (t.holds, lock_task_execution) (ground (arith, t.version))
stale_lock run now (some c) claim_at deadline db' t stale =
    rw (t.holds, t.run_is, lock_task_execution) (ground (arith, t.version, t.run_id))

complete_lost :
    (now : ℕ) (ctx_run : Option ℕ) (id : String) (run : ℕ) (result : String) (db : Db)
    → affected (fenced now id run) db.steps ≡ 0
    → (e : Error) × (complete_task_step now ctx_run id run result db ≡ (db, err e))
unfolding complete_task_step write
complete_lost now ctx_run id run result db idle = elim (Bool-cases (is_blank result)) [
  | inl b ↦ (requires_result, ground arith)
  | inr f ↦ (claim_lost, ground arith)
]

checkpoint_lost :
    (now : ℕ) (ctx_run : Option ℕ) (id : String) (run lease : ℕ) (cp : Option Checkpoint) (db : Db)
    → affected (fenced now id run) db.steps ≡ 0
    → (e : Error) × (checkpoint_task_step now ctx_run id run lease cp db ≡ (db, err e))
unfolding checkpoint_task_step write
checkpoint_lost now ctx_run id run lease cp db idle = elim (Bool-cases (valid_lease lease)) [
  | inl b ↦ (claim_lost, ground arith)
  | inr f ↦ (invalid_lease, ground arith)
]

fail_lost :
    (now : ℕ) (ctx_run : Option ℕ) (id : String) (run : ℕ) (reason : String) (retryable : Bool)
    (delay : ℤ) (db : Db)
    → affected (fenced now id run) db.steps ≡ 0
    → fail_task_step_after now ctx_run id run reason retryable delay db ≡ (db, err claim_lost)
unfolding fail_task_step_after write
fail_lost now ctx_run id run reason retryable delay db idle = ground arith

written_idle :
    (hit : Row → Bool) (change : Row → Row) (rows : List Row)
    → Careful hit change
    → any_running rows ≡ false
    → any_running (update hit change rows) ≡ false
unfolding any_running update was_running
written_idle hit change [] c h = refl
written_idle hit change (r ∷ rows) c h =
    let later : any_running (update hit change rows) ≡ false =
      written_idle hit change rows c (ground arith) in
    ground (arith, c.no_start r)

Quiet-idle :
    (rows rows' : List Row)
    → Quiet rows rows'
    → any_running rows ≡ false
    → any_running rows' ≡ false
Quiet-idle rows rows' (kept e) h = rw e h
Quiet-idle rows rows' (written hit change c e) h = rw e (written_idle hit change rows c h)

run_ops-idle :
    (ops : List Op) (db : Db)
    → no_claim ops ≡ true
    → any_running db.steps ≡ false
    → any_running (run_ops ops db).steps ≡ false
unfolding run_ops no_claim
run_ops-idle [] db quiet h = h
run_ops-idle (op ∷ ops) db quiet h =
    let other : is_claim op ≡ false = ground arith in
    let rest : no_claim ops ≡ true = ground arith in
    run_ops-idle ops (apply op db) rest
      (Quiet-idle db.steps (apply op db).steps (apply-Quiet op db other) h)

-- No worker that was started before the takeover can complete, checkpoint or fail its step until a
-- step is claimed again: after any operations but claims of steps, by anyone and at any times, the
-- call reports an error and changes nothing, even with the new coordinator's run id.
pub takeover-fences_workers :
    (now others run lease : ℕ) (db db' : Db) (r : TaskRun)
    → claim_graph_task now others run lease db ≡ (db', ok (some r))
    → (ops : List Op) → no_claim ops ≡ true
    → (later : ℕ) (ctx_run : Option ℕ) (id : String) (step_run : ℕ)
    → ((result : String)
        → (e : Error) × (complete_task_step later ctx_run id step_run result (run_ops ops db')
            ≡ (run_ops ops db', err e)))
      × ((step_lease : ℕ) (cp : Option Checkpoint)
          → (e : Error) × (checkpoint_task_step later ctx_run id step_run step_lease cp
                (run_ops ops db')
              ≡ (run_ops ops db', err e)))
      × ((reason : String) (retryable : Bool) (delay : ℤ)
          → (e : Error) × (fail_task_step_after later ctx_run id step_run reason retryable delay
                (run_ops ops db')
              ≡ (run_ops ops db', err e)))
takeover-fences_workers now others run lease db db' r h ops quiet later ctx_run id step_run =
    let t = claim_graph-Taken now others run lease db db' r h in
    let after = run_ops ops db' in
    let idle : affected (fenced later id step_run) after.steps ≡ 0 =
      affected_none later id step_run after.steps
        (run_ops-idle ops db' quiet (rw t.steps (no_running t.rows))) in
    (
      λ result. complete_lost later ctx_run id step_run result after idle,
      λ step_lease cp. checkpoint_lost later ctx_run id step_run step_lease cp after idle,
      λ reason retryable delay.
          (claim_lost, fail_lost later ctx_run id step_run reason retryable delay after idle),
    )

stale_apply : (run : ℕ) (db' : Db) → Taken run db' → (op : Op) → IsStale run op → apply op db' ≡ db'
unfolding apply
stale_apply run db' t (claim now c id r l) s =
    unfold claim_task_step in ground (arith, stale_lock run now c none true db' t s)
stale_apply run db' t (checkpoint now c id r l cp) s =
    unfold checkpoint_task_step in ground (arith, stale_lock run now c none true db' t s)
stale_apply run db' t (complete now c id r res) s =
    unfold complete_task_step in ground (arith, stale_lock run now c none true db' t s)
stale_apply run db' t (fail now c id r reason retry delay) s =
    unfold fail_task_step_after in ground (arith, stale_lock run now c none false db' t s)
stale_apply run db' t (recover now c) s =
    unfold recover_task_steps in ground (arith, stale_lock run now c none false db' t s)
stale_apply run db' t (resolve now c) s =
    unfold resolve_stuck_task_steps in ground (arith, stale_lock run now c none false db' t s)
stale_apply run db' t (claim_graph now others r l) s = absurd s
stale_apply run db' t (renew_graph now c l) s =
    unfold renew_graph_task in ground (arith, stale_lock run now c none true db' t s)
stale_apply run db' t (yield_graph now c next) s =
    unfold yield_graph_task in ground (arith, stale_lock run now c none false db' t s)

-- A process that still carries another run id changes nothing after the takeover.
pub takeover-fences_stale :
    (now others run lease : ℕ) (db db' : Db) (r : TaskRun)
    → claim_graph_task now others run lease db ≡ (db', ok (some r))
    → (op : Op) → IsStale run op
    → apply op db' ≡ db'
takeover-fences_stale now others run lease db db' r h op stale =
    stale_apply run db' (claim_graph-Taken now others run lease db db' r h) op stale
