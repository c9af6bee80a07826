-- ===== src/GraphExecutor/Workers.antt =====
-- The end of a worker: `runStep` (internal/agenttask/graph.go) from where the handler has returned.
use Prim.Native.String.{◌++◌ as str_append}
use blueship.StepStore.{Db, Result, ok, err, claim_lost}
use blueship.StepStore.Ops.{complete_task_step}
use blueship.StepStore.Failures.{fail_task_step_after}
use blueship.GraphExecutor.{GraphExecutor, Worker, Completion, expired}
use blueship.Prelude.Int.{ℤ, pos}
use blueship.Prelude.{
  ℕ, String, Bool, true, false, not, ◌&&◌, ◌||◌, Option, none, some, ltb, if◌then◌else◌, is_blank,
}

-- What stopped a worker's heartbeat.
pub data Heartbeat : Type 0 where
  alive lost_claim : Heartbeat
  broken : (reason : String) (deadline_exceeded : Bool) → Heartbeat

-- What the handler returned: a result, or an error with its delay if it is retryable.
pub data Execution : Type 0 where
  done : (accepted : Bool) (output : String) → Execution
  error : (reason : String) (retry : Option ℤ) (deadline_exceeded : Bool) → Execution

abbrev no_error : Completion
no_error = record {
  failed = false;
  is_waiting = false;
  deadline_exceeded = false;
  budget_exhausted = false;
}

abbrev an_error : Completion
an_error = record no_error { failed = true }

abbrev of_result : Result Unit → Completion
of_result (ok u) = no_error
of_result (err e) = an_error

abbrev pub is_retry : Option ℤ → Bool
is_retry none = false
is_retry (some d) = true

abbrev pub delay_of : Option ℤ → ℤ
delay_of none = pos 0
delay_of (some d) = d

abbrev is_lost : Result Unit → Bool
is_lost (err claim_lost) = true
is_lost _ = false

-- `FailTaskStepAfter` and what the worker reports then.
unfoldable pub fail_worker : ℕ → Option ℕ → Worker → String → Option ℤ → Bool → Db → Db × Completion
fail_worker now ctx_run w reason retry exceeded db =
    let (db', r) =
      fail_task_step_after now ctx_run w.id w.run reason (is_retry retry) (delay_of retry) db in
    (
      db',
      elim r [
        | err e ↦ record an_error { deadline_exceeded = exceeded }
        | ok u ↦ record an_error {
          is_waiting = is_retry retry && ltb w.row.attempts w.row.max_attempts;
          deadline_exceeded = exceeded;
        }
      ],
    )

unfoldable pub end_execution : ℕ → Option ℕ → Worker → Execution → Db → Db × Completion
end_execution now ctx_run w (done accepted output) db =
    if not accepted || is_blank output
    then fail_worker now ctx_run w (str_append "step " (str_append w.id " did not pass acceptance"))
        none false db
    else let (db', r) = complete_task_step now ctx_run w.id w.run output db in (db', of_result r)
end_execution now ctx_run w (error reason retry exceeded) db =
    fail_worker now ctx_run w reason retry exceeded db

-- `runStep` from where the handler has returned and the heartbeat has stopped.
unfoldable pub end_step :
    GraphExecutor → ℕ → Option ℕ → Bool → Worker → Heartbeat → Execution → Db → Db × Completion
end_step g now ctx_run ctx_done w alive e db = end_execution now ctx_run w e db
end_step g now ctx_run ctx_done w lost_claim e db = (db, an_error)
end_step g now ctx_run ctx_done w (broken reason exceeded) e db =
    let (db', r) = fail_task_step_after now ctx_run w.id w.run reason true (pos 0) db in
    (
      db',
      if expired now g.research_deadline && not ctx_done && not (is_lost r)
          then record an_error { budget_exhausted = true }
          else record an_error { deadline_exceeded = exceeded },
    )
