-- ===== src/StepStore/Ops.antt =====
-- The operations on steps (internal/core/task_steps.go, `lockTaskExecution` and `requireTaskRun` of
-- internal/core/task_run.go). `ctx_run` is the run id that the context carries, `now` the clock.
use blueship.Prelude.{
  ℕ, ◌+◌, String, Bool, true, false, not, ◌&&◌, ◌||◌, Option, none, some, List, [], ◌∷◌, ◌==◌, ltb,
  leb, if◌then◌else◌, str_eq, is_blank,
}
use blueship.StepStore.{
  Status, Row, Db, TaskRun, TaskStatus, Checkpoint, Field, Result, ok, err, absent, text, other,
  invalid_lease, claim_lost, requires_result, is_read, is_pending, is_running, is_done, is_live,
  update, affected, find_row,
}

abbrev opt_eq : Option ℕ → ℕ → Bool
opt_eq none b = false
opt_eq (some a) b = a == b

abbrev pub valid_lease : ℕ → Bool
valid_lease lease = leb 1000 lease && leb lease 600000

abbrev task_running : TaskStatus → Bool
task_running TaskStatus.running = true
task_running _ = false

-- `requireTaskRun`
unfoldable pub require_task_run : ℕ → Option ℕ → Option TaskRun → Bool
require_task_run now none run = false
require_task_run now (some ctx_run) none = false
require_task_run now (some ctx_run) (some r) = r.run_id == ctx_run && ltb now r.lease_until

abbrev claim_matches : Option ℕ → Option ℕ → Bool
claim_matches none last = true
claim_matches (some t) last = opt_eq last t

abbrev pub before_deadline : ℕ → Option ℕ → Bool
before_deadline now none = true
before_deadline now (some t) = ltb now t

-- `lockTaskExecution`: whether the caller may go on; false stands for `ErrTaskClaimLost`.
unfoldable pub lock_task_execution : ℕ → Option ℕ → Option ℕ → Bool → Db → Bool
unfolding require_task_run
lock_task_execution now ctx_run claim deadline db = elim db.task [
  | none ↦ false
  | some t ↦
      task_running t.status
      && claim_matches claim t.last_run_at
      && (not deadline || before_deadline now t.deadline)
      && (not (t.executor_version == 2) || require_task_run now ctx_run db.run)
]

-- A step that is running or waits for reconciliation.
unfoldable pub is_active : Status → Bool
is_active Status.running = true
is_active Status.reconciliation = true
is_active _ = false

-- A peer that stands in the way of a claim of `s`.
unfoldable pub conflicts : Row → Row → Bool
unfolding is_active
conflicts s peer = is_active peer.status && (not (is_read s.kind) || not (is_read peer.kind))

unfoldable pub none_conflicts : Row → List Row → Bool
unfolding conflicts
none_conflicts s [] = true
none_conflicts s (p ∷ ps) = not (conflicts s p) && none_conflicts s ps

-- `parent.status IS DISTINCT FROM 'done'` for the row named `dep`, or for the NULL of the join.
unfoldable pub is_done_step : List Row → String → Bool
is_done_step [] dep = false
is_done_step (p ∷ ps) dep = if str_eq p.id dep then is_done p.status else is_done_step ps dep

unfoldable pub all_done : List Row → List String → Bool
unfolding is_done_step
all_done rows [] = true
all_done rows (d ∷ ds) = is_done_step rows d && all_done rows ds

-- The WHERE clause of `ClaimTaskStep`.
unfoldable pub claimable : ℕ → String → List Row → Row → Bool
claimable now id rows s =
    str_eq s.id id
    && is_pending s.status
    && leb s.next_attempt_at now
    && ltb s.attempts s.max_attempts
    && none_conflicts s rows
    && all_done rows s.dependencies

abbrev coalesce : Option ℕ → ℕ → Option ℕ
coalesce none t = some t
coalesce (some s) t = some s

unfoldable pub claim_row : ℕ → ℕ → ℕ → Row → Row
claim_row now run lease s = record s {
  status = Status.running;
  run_id = some run;
  lease_until = some (now + lease);
  heartbeat_at = some now;
  started_at = coalesce s.started_at now;
  attempts = s.attempts + 1;
}

-- `ClaimTaskStep`; `run` is the fresh `uuid.New()`. The result is the row returned, or nil.
unfoldable pub claim_task_step : ℕ → Option ℕ → String → ℕ → ℕ → Db → Db × Result (Option Row)
claim_task_step now ctx_run id run lease db =
    if not (valid_lease lease)
    then (db, err invalid_lease)
    else if not (lock_task_execution now ctx_run none true db)
    then (db, err claim_lost)
    else elim (find_row (claimable now id db.steps) db.steps) [
      | none ↦ (db, ok none)
      | some s ↦ (
        record db { steps = update (claimable now id db.steps) (claim_row now run lease) db.steps },
        ok (some (claim_row now run lease s)),
      )
    ]

-- The WHERE clause that fences a worker's write.
unfoldable pub fenced : ℕ → String → ℕ → Row → Bool
fenced now id run s =
    str_eq s.id id && opt_eq s.run_id run && is_running s.status && is_live now s.lease_until

-- An UPDATE that must hit a row, or the claim is lost.
unfoldable pub write : (Row → Bool) → (Row → Row) → Db → Db × Result Unit
write hit change db =
    if affected hit db.steps == 0
    then (db, err claim_lost)
    else (record db { steps = update hit change db.steps }, ok tt)

unfoldable pub complete_row : ℕ → String → Row → Row
complete_row now result s = record s {
  status = Status.done;
  result = result;
  completed_at = some now;
  progress_at = some now;
  lease_until = none;
}

-- `CompleteTaskStep`
unfoldable pub complete_task_step : ℕ → Option ℕ → String → ℕ → String → Db → Db × Result Unit
complete_task_step now ctx_run id run result db =
    if is_blank result
    then (db, err requires_result)
    else if not (lock_task_execution now ctx_run none true db)
    then (db, err claim_lost)
    else write (fenced now id run) (complete_row now result) db

unfoldable pub field_eq : Field → Field → Bool
field_eq absent absent = true
field_eq (text s) (text t) = str_eq s t
field_eq (other s) (other t) = str_eq s t
field_eq _ _ = false

unfoldable pub checkpoint_eq : Checkpoint → Checkpoint → Bool
unfolding field_eq
checkpoint_eq a b =
    field_eq a.candidate_ready b.candidate_ready
    && field_eq a.phase b.phase
    && field_eq a.output b.output
    && field_eq a.last_candidate b.last_candidate
    && field_eq a.pending_tool b.pending_tool
    && str_eq a.rest b.rest

-- COALESCE($4, checkpoint), and the progress time that moves with a new checkpoint.
unfoldable pub checkpoint_row : ℕ → ℕ → Option Checkpoint → Row → Row
unfolding checkpoint_eq
checkpoint_row now lease cp s = record s {
  progress_at = elim cp [
    | none ↦ s.progress_at
    | some c ↦ if checkpoint_eq s.checkpoint c then s.progress_at else some now
  ];
  checkpoint = elim cp [ none ↦ s.checkpoint | some c ↦ c ];
  heartbeat_at = some now;
  lease_until = some (now + lease);
}

-- `CheckpointTaskStep`; `none` is an empty raw checkpoint, a mere heartbeat.
unfoldable pub checkpoint_task_step :
    ℕ → Option ℕ → String → ℕ → ℕ → Option Checkpoint → Db → Db × Result Unit
checkpoint_task_step now ctx_run id run lease cp db =
    if not (valid_lease lease)
    then (db, err invalid_lease)
    else if not (lock_task_execution now ctx_run none true db)
    then (db, err claim_lost)
    else write (fenced now id run) (checkpoint_row now lease cp) db
