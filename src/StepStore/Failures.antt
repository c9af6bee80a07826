-- ===== src/StepStore/Failures.antt =====
-- What becomes of a step that stopped: `FailTaskStepAfter`, `RecoverTaskSteps` and
-- `ResolveStuckTaskSteps` (internal/core/task_steps.go).
use Prim.Native.String.{◌++◌ as str_append}
use blueship.Prelude.Int.{ℤ, pos, negsuc}
use blueship.Prelude.{
  ℕ, ◌+◌, ◌*◌, min, max, String, Bool, true, false, not, ◌&&◌, Option, none, some, ltb, leb,
  if◌then◌else◌, str_eq, btrim,
}
use blueship.StepStore.{
  Status, Row, Db, Result, ok, err, claim_lost, is_finalize, is_running, is_expired,
  needs_reconciliation, update, affected, text_of,
}
use blueship.StepStore.Ops.{lock_task_execution, fenced, write}

-- The CASE of `FailTaskStepAfter`.
unfoldable pub failed_status : Bool → Row → Status
failed_status retryable s =
    if needs_reconciliation s
    then Status.reconciliation
    else if retryable && ltb s.attempts s.max_attempts
    then Status.pending
    else Status.blocked

abbrev nonneg : ℤ → ℕ
nonneg (pos n) = n
nonneg (negsuc n) = 0

-- GREATEST(LEAST(60,5*attempts)*1000,delay), in milliseconds.
unfoldable pub backoff : ℕ → ℤ → ℕ
backoff attempts delay = max (min 60 (5 * attempts) * 1000) (nonneg delay)

unfoldable pub fail_row : ℕ → String → Bool → ℤ → Row → Row
unfolding failed_status backoff
fail_row now reason retryable delay s = record s {
  last_error = reason;
  status = failed_status retryable s;
  next_attempt_at = now + backoff s.attempts delay;
  lease_until = none;
}

-- `FailTaskStepAfter`; `FailTaskStep` is the call with no delay.
unfoldable pub fail_task_step_after :
    ℕ → Option ℕ → String → ℕ → String → Bool → ℤ → Db → Db × Result Unit
fail_task_step_after now ctx_run id run reason retryable delay db =
    if not (lock_task_execution now ctx_run none false db)
    then (db, err claim_lost)
    else write (fenced now id run) (fail_row now reason retryable delay) db

-- The CASE of `RecoverTaskSteps` and of `ClaimGraphTask`.
unfoldable pub recovered_status : Row → Status
recovered_status s =
    if needs_reconciliation s
    then Status.reconciliation
    else if leb s.max_attempts s.attempts
    then Status.blocked
    else Status.pending

unfoldable pub recover_row : Row → Row
recover_row s = record s { status = recovered_status s; lease_until = none }

unfoldable pub lapsed : ℕ → Row → Bool
lapsed now s = is_running s.status && is_expired now s.lease_until

-- `RecoverTaskSteps`
unfoldable pub recover_task_steps : ℕ → Option ℕ → Db → Db × Result Unit
recover_task_steps now ctx_run db =
    if not (lock_task_execution now ctx_run none false db)
    then (db, err claim_lost)
    else (record db { steps = update (lapsed now) recover_row db.steps }, ok tt)

-- NULLIF(btrim(x),'')
unfoldable pub trimmed : Option String → Option String
trimmed none = none
trimmed (some s) = if str_eq (btrim s) "" then none else some (btrim s)

abbrev or_else : Option String → Option String → Option String
or_else none b = b
or_else (some a) b = some a

abbrev coalesce_text : Option String → String → String
coalesce_text none d = d
coalesce_text (some s) d = s

unfoldable pub unverified_result : Row → String
unfolding trimmed
unverified_result s = btrim (
    str_append
      (coalesce_text
        (or_else (trimmed (text_of s.checkpoint.output))
          (trimmed (text_of s.checkpoint.last_candidate)))
        "")
      (str_append "\n\n[unverified_step_result]\nThis step could not be completed: " (
        str_append (coalesce_text (trimmed (some s.last_error)) "no confirmed result")
          "\nUse only facts its sources support and state this gap explicitly in the deliverable.\n[/unverified_step_result]")))

unfoldable pub resolve_row : ℕ → Row → Row
resolve_row now s = record s {
  status = Status.done;
  completed_at = some now;
  lease_until = none;
  result = unverified_result s;
}

unfoldable pub is_stuck : Row → Bool
is_stuck s =
    (elim s.status [ Status.blocked ↦ true | Status.reconciliation ↦ true | _ ↦ false ])
    && not (is_finalize s.kind)

-- `ResolveStuckTaskSteps`, with the number of rows it resolved.
unfoldable pub resolve_stuck_task_steps : ℕ → Option ℕ → Db → Db × Result ℕ
resolve_stuck_task_steps now ctx_run db =
    if not (lock_task_execution now ctx_run none false db) then (db, err claim_lost) else (
      record db { steps = update is_stuck (resolve_row now) db.steps },
      ok (affected is_stuck db.steps),
    )
