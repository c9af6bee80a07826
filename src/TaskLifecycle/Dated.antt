-- ===== src/TaskLifecycle/Dated.antt =====
-- The deadline that maintenance leaves in a task's row.
use blueship.Outbox.{Ref}
use blueship.Outbox.Resolution.{Parsed}
use blueship.TaskLifecycle.{
  TaskRow, TaskArtifact, Store, StoreResult, ok, err, is_open, is_recurring,
  task_runs_to_completion,
}
use blueship.TaskLifecycle.Draft.{Texts}
use blueship.TaskLifecycle.Finalize.{TaskFinalization, finalize_task_tx}
use blueship.TaskLifecycle.Outcome.{IsOutcome}
use blueship.TaskLifecycle.Finalized.{finalize_task_tx-IsOutcome}
use blueship.TaskLifecycle.Writes.{change_row, set_task_deadline}
use blueship.TaskLifecycle.Deadlines.{
  Maintenance, task_progress_after, is_same_deadline, is_failed, task_wall_start,
  task_wall_deadline, is_deadline_task, deadline_finalization, notify_task_lifecycle, expire_now,
  keep_deadline, maintain_wall, maintain_row, maintain_task_deadlines, or_default_limit,
  min_deadline,
}
use blueship.Prelude.{
  ℕ, ◌+◌, ◌==◌, String, Bool, true, false, not, ◌&&◌, Option, none, some, List, ◌≡◌, refl, sym, ◌∙◌,
  subst, arith, leb, Bool-cases, inl, inr, if◌then◌else◌,
}

-- The start and the limit, or an earlier deadline.
abbrev pub wall_deadline : Maintenance → TaskRow → ℕ
wall_deadline m t =
    min_deadline t.deadline (task_wall_start m.created m.start_at m.now + or_default_limit m.limit)

-- The task's row once its deadline is stored.
abbrev pub stored_row : TaskRow → ℕ → TaskRow
stored_row t d = record t { deadline = some d }

abbrev pub stored : TaskRow → ℕ → Store → Store
stored t d db = if is_same_deadline d t.deadline then db else set_task_deadline d db

pub stored-holds :
    (t : TaskRow) (d : ℕ) (db : Store)
    → db.task ≡ some t
    → t.executor_version ≡ 1
    → is_open t.status ≡ true
    → min_deadline t.deadline d ≡ d
    → (stored t d db).task ≡ some (stored_row t d)
unfolding set_task_deadline change_row
stored-holds t d db e version opened least = ground arith

-- The open one-shot tasks of version 1 have a budget.
abbrev pub is_budgeted : TaskRow → Bool
is_budgeted t = t.executor_version == 1 && is_open t.status && not (is_recurring t)

abbrev pub due_deadline : Maintenance → TaskRow → Option ℕ
due_deadline m t = if is_budgeted t then some (wall_deadline m t) else t.deadline

-- The task is there, with this deadline.
pub record IsDated (d : Option ℕ) (r : Option TaskRow) : Type 0 where
  pub row : TaskRow
  pub holds : r ≡ some row
  pub is : row.deadline ≡ d

outcome-IsDated :
    (texts : Texts) (now : ℕ) (given : TaskFinalization) (d : Option ℕ) (db db' : Store)
    (r : StoreResult (Option TaskArtifact))
    → IsDated d db.task
    → IsOutcome texts now given db (db', r)
    → IsDated d db'.task
unfolding IsOutcome
outcome-IsDated texts now given d db db' (err e) w o = subst (λ x. IsDated d x.task) (sym o) w
outcome-IsDated texts now given d db db' (ok none) w o = subst (λ x. IsDated d x.task) (sym o) w
outcome-IsDated texts now given d db db' (ok (some a)) w o = record {
  row = o.after;
  holds = o.stands;
  is = o.deadline ∙ ground (arith, o.was, w.holds, w.is);
}

if-IsDated :
    (d : Option ℕ) (b : Bool) (x y : Store)
    → IsDated d x.task
    → IsDated d y.task
    → IsDated d (if b then x else y).task
if-IsDated d true x y v w = v
if-IsDated d false x y v w = w

module _ (texts : Texts) (key : List Ref → String) (version_key : ℕ → String)
    (merge : String → String → String) (metadata : String → ℕ → String → String)
    (parse : String → Parsed) (m : Maintenance) where
  expire-IsDated :
      (d : Option ℕ) (db : Store)
      → IsDated d db.task
      → IsDated d (expire_now texts key version_key merge metadata parse m db).task
  unfolding expire_now
  expire-IsDated d db w =
      outcome-IsDated texts m.now (deadline_finalization m) d db _
        (finalize_task_tx texts key version_key merge metadata m.now none m.fresh
          (deadline_finalization m) db).1
        w
        (finalize_task_tx-IsOutcome texts key version_key merge metadata m.now none m.fresh
          (deadline_finalization m) db)

  keep_deadline-IsDated :
      (x : Option ℕ) (t : TaskRow) (d : ℕ) (db : Store)
      → IsDated x (stored t d db).task
      → IsDated x (keep_deadline texts key version_key merge metadata parse m t d db).task
  unfolding keep_deadline notify_task_lifecycle
  keep_deadline-IsDated x t d db w =
      let s = stored t d db in
      if-IsDated x (leb d m.now) (expire_now texts key version_key merge metadata parse m s) _
        (expire-IsDated x s w)
        (if-IsDated x
          (not (is_recurring t)
            && leb (task_wall_start m.created m.start_at m.now + task_progress_after) m.now)
          (notify_task_lifecycle texts key version_key merge metadata parse m t "progress"
            m.progress_text s)
          s w w)

  -- A deadline that is the row's own is left as it is.
  maintain_wall-own :
      (t : TaskRow) (d : Option ℕ) (db : Store)
      → t.deadline ≡ d
      → db.task ≡ some t
      → IsDated d (maintain_wall texts key version_key merge metadata parse m t d db).task
  unfolding maintain_wall
  maintain_wall-own t none db same e = record { row = t; holds = e; is = same }
  maintain_wall-own t (some d) db same e =
      keep_deadline-IsDated (some d) t d db
        (record { row = t; holds = ground (arith, same); is = same })

  maintain_row-plain :
      (t : TaskRow) (db : Store)
      → db.task ≡ some t
      → is_budgeted t ≡ true
      → IsDated
          (some (wall_deadline m t))
          (maintain_row texts key version_key merge metadata parse m t db).task
  unfolding maintain_row task_wall_deadline task_runs_to_completion maintain_wall is_open
  maintain_row-plain t db e budgeted =
      let d = wall_deadline m t in
      let same : maintain_row texts key version_key merge metadata parse m t db
          ≡ keep_deadline texts key version_key merge metadata parse m t d db =
        ground arith in
      subst (λ x. IsDated (some d) x.task) (sym same)
        (keep_deadline-IsDated (some d) t d db (record {
          row = stored_row t d;
          holds = stored-holds t d db e (ground arith) (ground arith) (ground arith);
          is = refl;
        }))

  own_wall :
      (t : TaskRow) (db : Store)
      → is_deadline_task db.journal t ≡ true
      → is_budgeted t ≡ false
      → is_failed t.status ≡ false
      → task_wall_deadline t m.created m.start_at m.now m.limit ≡ t.deadline
  unfolding is_deadline_task task_wall_deadline task_runs_to_completion is_recurring is_open
  own_wall t db due other going = ground arith

  maintain_row-own :
      (t : TaskRow) (db : Store)
      → db.task ≡ some t
      → is_deadline_task db.journal t ≡ true
      → is_budgeted t ≡ false
      → IsDated t.deadline (maintain_row texts key version_key merge metadata parse m t db).task
  unfolding maintain_row notify_task_lifecycle
  maintain_row-own t db e due other = elim (Bool-cases (is_failed t.status)) [
    | inl closed ↦ rw closed (record { row = t; holds = e; is = refl })
    | inr going ↦
        rw (going, own_wall t db due other going) (maintain_wall-own t t.deadline db refl e)
  ]

  budgeted-due :
      (t : TaskRow) (db : Store) → is_budgeted t ≡ true → is_deadline_task db.journal t ≡ true
  unfolding is_deadline_task
  budgeted-due t db b = ground arith

  -- The deadline in a task's row after maintenance, whatever the task, the clock and the limit: an open
  -- one-shot task of version 1 has the end of its budget (its start and the limit, or an earlier
  -- deadline of its own), and any other task the deadline that it had.
  pub maintain_task_deadlines-IsDated :
      (t : TaskRow) (db : Store)
      → db.task ≡ some t
      → IsDated
          (due_deadline m t)
          (maintain_task_deadlines texts key version_key merge metadata parse m db).task
  unfolding maintain_task_deadlines
  maintain_task_deadlines-IsDated t db e = elim (Bool-cases (is_budgeted t)) [
    | inl b ↦ rw (e, maintain_task_deadlines, b, budgeted-due t db b) (maintain_row-plain t db e b)
    | inr b ↦ elim (Bool-cases (is_deadline_task db.journal t)) [
      | inl due ↦ rw (e, maintain_task_deadlines, b, due) (maintain_row-own t db e due b)
      | inr idle ↦
          rw (e, maintain_task_deadlines, b, idle) (record { row = t; holds = e; is = refl })
    ]
  ]
