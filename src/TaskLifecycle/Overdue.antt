-- ===== src/TaskLifecycle/Overdue.antt =====
-- Maintenance closes a one-shot task whose budget is over.
use blueship.Outbox.{Ref}
use blueship.Outbox.Resolution.{Parsed}
use blueship.TaskLifecycle.{
  TaskRow, TaskArtifact, Store, StoreError, StoreResult, ok, err, is_open, is_terminal,
  is_recurring, task_runs_to_completion,
}
use blueship.TaskLifecycle.Draft.{Texts}
use blueship.TaskLifecycle.Finalize.{
  finalize_body, finalize_row, finalize_selected, finalize_task_tx, is_outcome, lost_run,
  lost_claim, not_expired,
}
use blueship.TaskLifecycle.Outcome.{Finished, IsOutcome}
use blueship.TaskLifecycle.Finalized.{finalize_task_tx-IsOutcome}
use blueship.TaskLifecycle.Deadlines.{
  Maintenance, task_wall_deadline, is_deadline_task, deadline_finalization, expire_now,
  keep_deadline, maintain_wall, maintain_row, maintain_task_deadlines,
}
use blueship.TaskLifecycle.Dated.{wall_deadline, stored_row, stored, stored-holds}
use blueship.TaskLifecycle.Excuses.{is_excuse, is_said, IsSaid, finalize_body-IsSaid}
use blueship.Prelude.{
  ℕ, String, true, false, Option, none, some, List, ◌≡◌, ◌⊎◌, refl, ap, ◌∙◌, subst, arith, leb, inl,
  inr,
}

same_of :
    (texts : Texts) (m : Maintenance) (db db' : Store) (e : StoreError)
    → IsOutcome texts m.now (deadline_finalization m) db (db', err e)
    → db' ≡ db
unfolding IsOutcome
same_of texts m db db' e o = o

Finished-of :
    (texts : Texts) (m : Maintenance) (db db' : Store) (a : TaskArtifact)
    → IsOutcome texts m.now (deadline_finalization m) db (db', ok (some a))
    → Finished texts m.now (deadline_finalization m) db db' a
unfolding IsOutcome
Finished-of texts m db db' a o = o

module _ (texts : Texts) (key : List Ref → String) (version_key : ℕ → String)
    (merge : String → String → String) (metadata : String → ℕ → String → String) where
  abbrev pub IsClosedOr : Maintenance → Store → Type 0
  IsClosedOr m db =
      let r =
        finalize_task_tx texts key version_key merge metadata m.now none m.fresh
          (deadline_finalization m) db in
      ((after : TaskRow) × (r.0.task ≡ some after) × (is_terminal after.status ≡ true))
      ⊎ ((e : StoreError) × (is_excuse m.stopped_text e ≡ true) × (r ≡ (db, err e)))

  -- The checks before the body pass.
  deadline_finalization-body :
      (m : Maintenance) (d : ℕ) (t : TaskRow) (db : Store)
      → db.task ≡ some t
      → t.executor_version ≡ 1
      → is_open t.status ≡ true
      → t.deadline ≡ some d
      → leb d m.now ≡ true
      → finalize_task_tx texts key version_key merge metadata m.now none m.fresh
          (deadline_finalization m)
          db
        ≡ finalize_body texts key version_key merge metadata m.now m.fresh
            (deadline_finalization m)
            t
            db
  unfolding finalize_task_tx finalize_selected finalize_row is_outcome lost_run lost_claim
      not_expired deadline_finalization
  deadline_finalization-body m d t db e version opened deadline due = ground arith

  -- What is left of an overdue task: it is closed, or its finalization has reported an error.
  outcome-cases :
      (m : Maintenance) (db db' : Store) (r : StoreResult (Option TaskArtifact))
      → finalize_task_tx texts key version_key merge metadata m.now none m.fresh
          (deadline_finalization m)
          db
        ≡ (db', r)
      → is_said m.stopped_text r ≡ true
      → IsClosedOr m db
  outcome-cases m db db' (err e) h said =
      let o : IsOutcome texts m.now (deadline_finalization m) db (db', err e) =
        subst (IsOutcome texts m.now (deadline_finalization m) db) h (
          finalize_task_tx-IsOutcome texts key version_key merge metadata m.now none m.fresh
            (deadline_finalization m) db) in
      inr (e, said, h ∙ ap (λ x. (x, err e)) (same_of texts m db db' e o))
  outcome-cases m db db' (ok none) h said = absurd (ground arith)
  outcome-cases m db db' (ok (some a)) h said =
      let o : IsOutcome texts m.now (deadline_finalization m) db (db', ok (some a)) =
        subst (IsOutcome texts m.now (deadline_finalization m) db) h (
          finalize_task_tx-IsOutcome texts key version_key merge metadata m.now none m.fresh
            (deadline_finalization m) db) in
      let f = Finished-of texts m db db' a o in
      inl (f.after, ap (λ x. x.0.task) h ∙ f.stands, f.closed)

  overdue-cases :
      (m : Maintenance) (d : ℕ) (t : TaskRow) (db : Store)
      → db.task ≡ some t
      → t.executor_version ≡ 1
      → is_open t.status ≡ true
      → t.deadline ≡ some d
      → leb d m.now ≡ true
      → IsClosedOr m db
  unfolding IsSaid deadline_finalization
  overdue-cases m d t db e version opened deadline due =
      let r =
        finalize_task_tx texts key version_key merge metadata m.now none m.fresh
          (deadline_finalization m) db in
      let said : is_said m.stopped_text r.1 ≡ true =
        rw (deadline_finalization-body m d t db e version opened deadline due) (
          finalize_body-IsSaid texts key version_key merge metadata m.now m.fresh
            (deadline_finalization m) t db refl) in
      outcome-cases m db r.0 r.1 refl said

  module _ (parse : String → Parsed) where
    -- Maintenance hands an overdue task to `expireTask`, with its deadline stored.
    maintain-expires :
        (m : Maintenance) (t : TaskRow) (db : Store)
        → db.task ≡ some t
        → t.executor_version ≡ 1
        → is_open t.status ≡ true
        → is_recurring t ≡ false
        → leb (wall_deadline m t) m.now ≡ true
        → maintain_task_deadlines texts key version_key merge metadata parse m db
          ≡ expire_now texts key version_key merge metadata parse m
              (stored t (wall_deadline m t) db)
    unfolding maintain_task_deadlines is_deadline_task maintain_row maintain_wall task_wall_deadline
        keep_deadline task_runs_to_completion is_open
    maintain-expires m t db e version opened plain due =
        rw (e, maintain_task_deadlines) (ground arith)

    -- Maintenance closes a one-shot task of version 1 whose wall-clock budget (its start and the
    -- limit, or an earlier deadline of its own) is over, whether the task waits, runs or is paused,
    -- unless the finalization reports an error; then only the deadline has changed, and the text on a
    -- task without a result is blank or the notification of the result cannot be queued.
    pub maintain_task_deadlines-closes :
        (m : Maintenance) (t : TaskRow) (db : Store)
        → db.task ≡ some t
        → t.executor_version ≡ 1
        → is_open t.status ≡ true
        → is_recurring t ≡ false
        → leb (wall_deadline m t) m.now ≡ true
        → ((after : TaskRow) × ((maintain_task_deadlines texts key version_key merge metadata parse
                m db).task
              ≡ some after)
            × (is_terminal after.status ≡ true))
          ⊎ ((e : StoreError) × (is_excuse m.stopped_text e ≡ true)
              × (finalize_task_tx texts key version_key merge metadata m.now none m.fresh
                    (deadline_finalization m)
                    (stored t (wall_deadline m t) db)
                  ≡ (stored t (wall_deadline m t) db, err e))
              × (maintain_task_deadlines texts key version_key merge metadata parse m db
                  ≡ stored t (wall_deadline m t) db))
    unfolding expire_now
    maintain_task_deadlines-closes m t db e version opened plain due =
        let d = wall_deadline m t in
        let there = stored-holds t d db e version opened (ground arith) in
        let same = maintain-expires m t db e version opened plain due in
        elim (overdue-cases m d (stored_row t d) (stored t d db) there version opened refl due) [
          | inl (after, stands, closed) ↦ inl (after, ap (λ x. x.task) same ∙ stands, closed)
          | inr (fault, excuse, h) ↦ inr (fault, excuse, h, same ∙ ap (λ x. x.0) h)
        ]
