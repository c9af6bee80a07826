-- ===== src/StepStore/Runs.antt =====
-- The coordinator's run (internal/core/task_run.go): `ClaimGraphTask`, `RenewGraphTask` and
-- `YieldGraphTask`. The owner's other live runs are counted by the query; `others` is that count.
-- The JSON column `progress` is left out.
use blueship.Prelude.{
  ℕ, ◌+◌, Bool, true, false, not, ◌&&◌, ◌||◌, Option, none, some, List, [], ◌∷◌, ◌==◌, leb,
  if◌then◌else◌,
}
use blueship.StepStore.{
  Row, Db, Task, TaskRun, TaskStatus, Result, ok, err, invalid_lease, claim_lost, running_steps,
  is_running, update,
}
use blueship.StepStore.Ops.{lock_task_execution, require_task_run, valid_lease, before_deadline}
use blueship.StepStore.Failures.{recover_row}

abbrev pub max_concurrent_graph_tasks_per_user : ℕ
max_concurrent_graph_tasks_per_user = 2

abbrev is_queued_or_running : TaskStatus → Bool
is_queued_or_running TaskStatus.pending = true
is_queued_or_running TaskStatus.running = true
is_queued_or_running _ = false

abbrev started : ℕ → Option ℕ → Bool
started now none = true
started now (some t) = leb t now

-- The SELECT of `ClaimGraphTask`.
unfoldable pub admissible : ℕ → Task → Bool
admissible now t =
    t.executor_version == 2
    && is_queued_or_running t.status
    && before_deadline now t.deadline
    && started now t.start_at

-- INSERT … ON CONFLICT DO UPDATE … WHERE: no row comes back while a run is live or backs off.
unfoldable pub next_run : ℕ → ℕ → ℕ → Option TaskRun → Option TaskRun
next_run now run lease none = some (record {
  run_id = run;
  lease_until = now + lease;
  heartbeat_at = now;
  next_attempt_at = now;
  started_at = now;
})
next_run now run lease (some r) =
    if leb r.lease_until now && leb r.next_attempt_at now
    then some
        (record r { run_id = run; lease_until = now + lease; heartbeat_at = now; started_at = now })
    else none

unfoldable pub orphan_row : Row → Row
unfolding recover_row
orphan_row s = let r = recover_row s in record r { last_error = "coordinator lease lost" }

unfoldable pub was_running : Row → Bool
was_running s = is_running s.status

-- `ClaimGraphTask`; `run` is the fresh `uuid.New()`. The result is the run, or nil.
unfoldable pub claim_graph_task : ℕ → ℕ → ℕ → ℕ → Db → Db × Result (Option TaskRun)
claim_graph_task now others run lease db =
    if not (valid_lease lease) then (db, err invalid_lease) else elim db.task [
      | none ↦ (db, ok none)
      | some t ↦
          if not (admissible now t) || leb max_concurrent_graph_tasks_per_user others
          then (db, ok none)
          else elim (next_run now run lease db.run) [
            | none ↦ (db, ok none)
            | some r ↦ (
              record {
                task = some (record t { status = TaskStatus.running; last_run_at = some now });
                run = some r;
                steps = update was_running orphan_row db.steps;
              },
              ok (some r),
            )
          ]
    ]

abbrev renewed : ℕ → ℕ → Option TaskRun → Option TaskRun
renewed now lease none = none
renewed now lease (some r) = some (record r { lease_until = now + lease; heartbeat_at = now })

-- `RenewGraphTask`
unfoldable pub renew_graph_task : ℕ → Option ℕ → ℕ → Db → Db × Result Unit
renew_graph_task now ctx_run lease db =
    if not (valid_lease lease)
    then (db, err invalid_lease)
    else if not
        (lock_task_execution now ctx_run none true db && require_task_run now ctx_run db.run)
    then (db, err claim_lost)
    else (record db { run = renewed now lease db.run }, ok tt)

unfoldable pub any_running : List Row → Bool
unfolding was_running
any_running [] = false
any_running (s ∷ ss) = was_running s || any_running ss

abbrev released : ℕ → ℕ → Option TaskRun → Option TaskRun
released now next none = none
released now next (some r) = some (record r { lease_until = now; next_attempt_at = next })

abbrev requeued : Option Task → Option Task
requeued none = none
requeued (some t) = some (record t { status = TaskStatus.pending })

-- `YieldGraphTask`
unfoldable pub yield_graph_task : ℕ → Option ℕ → ℕ → Db → Db × Result Unit
yield_graph_task now ctx_run next db =
    if not (lock_task_execution now ctx_run none false db && require_task_run now ctx_run db.run)
    then (db, err claim_lost)
    else if any_running db.steps
    then (db, err running_steps)
    else (record db { task = requeued db.task; run = released now next db.run }, ok tt)
