-- ===== src/TaskLifecycle/Submissions.antt =====
-- A task's submission (internal/core/agent_submission.go), its checkpoint (agent_checkpoint.go) and the
-- record of its iterations (agent_store.go). `required_recheck_urls` and the JSON of a checkpoint but
-- its output are left out.
use blueship.StepStore.{TaskStatus}
use blueship.TaskLifecycle.{
  TaskRow, jsonb_object, Iteration, Store, StoreResult, ok, err, no_rows, claim_lost,
  invalid_checkpoint,
}
use blueship.Prelude.{
  ℕ, ◌+◌, String, Bool, false, not, ◌&&◌, ◌||◌, none, some, ◌∷◌, ◌==◌, if◌then◌else◌, str_eq,
}
use blueship.TaskLifecycle.Writes.{update_task, is_hit, is_running_row}

abbrev has_claim : ℕ → TaskRow → Bool
has_claim claim t = elim t.last_run_at [ none ↦ false | some l ↦ l == claim ]

abbrev pub is_claimed : ℕ → TaskRow → Bool
is_claimed claim t = is_running_row t && has_claim claim t

-- `SaveTaskSubmission`
unfoldable pub save_task_submission : ℕ → ℕ → String → Store → Store × StoreResult Unit
save_task_submission now claim output db =
    if not (is_hit (is_claimed claim) db.task) then (db, err claim_lost) else (
      record db {
        submission = some (record {
          output = output;
          review_attempts = 0;
          next_review_at = now;
          last_error = "";
        });
      },
      ok tt,
    )

-- `DeferTaskVerification`; `merge` is `||` on JSON.
unfoldable pub defer_task_verification :
    (String → String → String) → ℕ → String → ℕ → Store → Store × StoreResult Unit
defer_task_verification merge claim reason next_at db =
    if not (is_hit (is_claimed claim) db.task) then (db, err claim_lost) else elim db.submission [
      | none ↦ (db, err no_rows)
      | some s ↦ (
        record (update_task (is_claimed claim)
            (λ t. record t {
              status = TaskStatus.pending;
              progress = merge t.progress "{\"phase\":\"verification_wait\"}";
            })
            db) {
              submission = some (record s {
                review_attempts = s.review_attempts + 1;
                next_review_at = next_at;
                last_error = reason;
              });
            },
        ok tt,
      )
    ]

-- `RejectTaskSubmission`
unfoldable pub reject_task_submission : ℕ → String → Store → Store × StoreResult Unit
reject_task_submission claim progress db =
    if not (is_hit (is_claimed claim) db.task) then (db, err claim_lost) else (
      record (update_task (is_claimed claim)
          (λ t. record t {
            progress = jsonb_object progress;
            status = TaskStatus.pending;
            iteration = t.iteration + 1;
          })
          db) { submission = none },
      ok tt,
    )

-- `CheckpointTask`; the zero time is 0.
unfoldable pub checkpoint_task :
    (String → String → String)
    → ℕ
    → ℕ
    → String
    → String
    → String
    → String
    → Store
    → Store × StoreResult Unit
checkpoint_task merge claim iteration session phase output progress db =
    if str_eq session "" || str_eq phase "" || iteration == 0 || claim == 0
    then (db, err invalid_checkpoint)
    else if not (is_hit (is_claimed claim) db.task)
    then (db, err claim_lost)
    else (
      record (update_task (is_claimed claim)
          (λ t. record t { progress = merge t.progress (jsonb_object progress) }) db) {
            checkpoint = elim db.checkpoint [
              | none ↦ some output
              | some old ↦ some (if str_eq output "" then old else output)
            ];
          },
      ok tt,
    )

-- `RecordIteration`; every one of them has a start of its own.
unfoldable pub record_iteration : Iteration → Store → Store
record_iteration i db = record db { iterations = i ∷ db.iterations }
