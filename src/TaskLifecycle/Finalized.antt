-- ===== src/TaskLifecycle/Finalized.antt =====
-- What `finalizeTaskTx` leaves, on every branch.
use blueship.Prelude.{
  ℕ, ◌+◌, String, Bool, true, false, not, ◌&&◌, Option, none, some, List, ◌≡◌, refl, arith, str_eq,
  trim_space, is_blank, if◌then◌else◌,
}
use blueship.Outbox.{Ref, Journal}
use blueship.TaskLifecycle.{TaskRow, TaskArtifact, Store, err, no_rows, is_open}
use blueship.TaskLifecycle.Draft.{Texts, clean_task_draft, draft_body}
use blueship.TaskLifecycle.Finalize.{
  TaskFinalization, is_outcome, before_deadline, lost_claim, not_expired, last_version,
  store_result, publish, explain, finalize_body, lost_run, finalize_row, finalize_selected,
  finalize_task_tx,
}
use blueship.TaskLifecycle.Announced.{Announced, notified-Announced}
use blueship.TaskLifecycle.Outcome.{
  IsEarned, IsOutcome, task_terminal_status-is_terminal, task_terminal_status-done,
  task_terminal_status-canceled, task_terminal_status-IsReport, last_version-is_last,
  explained_completed, if-IsOutcome, unchanged-IsOutcome,
}
use blueship.Prelude.Trim.{is_blank-trimmed}

pick-solid :
    (b : Bool) (body notify : String)
    → is_blank notify ≡ b
    → is_blank body ≡ false
    → is_blank (if b then body else notify) ≡ false
pick-solid true body notify e h = h
pick-solid false body notify e h = e

-- What is announced of a completed task is not blank.
announcement-solid :
    (b : Bool) (body notify : String)
    → b ≡ true
    → is_blank body ≡ false
    → is_blank (if b && is_blank notify then body else notify) ≡ false
announcement-solid true body notify e h = pick-solid (is_blank notify) body notify refl h
announcement-solid false body notify e h = absurd (ground arith)

module _ (texts : Texts) (key : List Ref → String) (version_key : ℕ → String)
    (merge : String → String → String) (metadata : String → ℕ → String → String) where
  store_result-IsOutcome :
      (now : ℕ) (given : TaskFinalization) (a : TaskArtifact) (t : TaskRow) (j : Option Journal)
      (db : Store)
      → db.task ≡ some t
      → is_open t.status ≡ true
      → str_eq a.body "" ≡ false
      → a.version ≡ last_version db.artifacts + 1
      → (str_eq a.outcome "completed" ≡ true → IsEarned texts now given t)
      → ((j' : Journal)
          → j ≡ some j'
          → str_eq a.outcome "completed" ≡ true
          → Announced t db.journal j')
      → IsOutcome texts now given db
          (store_result texts key version_key merge metadata now given a t j db)
  unfolding store_result IsOutcome
  store_result-IsOutcome now given a t none db e open_before filled version earned announced = refl
  store_result-IsOutcome now given a t (some j) db e open_before filled version earned announced =
      record {
        before = t;
        was = e;
        was_open = open_before;
        after = _;
        stands = refl;
        status = refl;
        closed = task_terminal_status-is_terminal t a.outcome;
        completes = task_terminal_status-done t a.outcome;
        cancels = task_terminal_status-canceled t a.outcome;
        done_of = task_terminal_status-IsReport t a.outcome;
        result = refl;
        deadline = refl;
        filled = filled;
        kept = refl;
        newest = rw version (last_version-is_last db.artifacts);
        announced = announced j refl;
        earned = earned;
      }

  publish-IsOutcome :
      (now fresh : ℕ) (given : TaskFinalization) (outcome body notify : String) (t : TaskRow)
      (db : Store)
      → db.task ≡ some t
      → is_open t.status ≡ true
      → str_eq body "" ≡ false
      → (str_eq outcome "completed" ≡ true → IsEarned texts now given t)
      → (str_eq outcome "completed" ≡ true → is_blank body ≡ false)
      → IsOutcome texts now given db
          (publish texts key version_key merge metadata now fresh given outcome body notify t db)
  unfolding publish
  publish-IsOutcome now fresh given outcome body notify t db e open_before filled earned solid =
      store_result-IsOutcome now given _ t _ db e open_before filled refl earned (λ j' h k.
        notified-Announced texts key version_key merge metadata now fresh t _ _ _ db.journal j'
          (announcement-solid (str_eq outcome "completed") body notify k (solid k)) h)

  explain-IsOutcome :
      (now fresh : ℕ) (given : TaskFinalization) (t : TaskRow) (db : Store)
      → db.task ≡ some t
      → is_open t.status ≡ true
      → (str_eq given.outcome "completed" ≡ true → IsEarned texts now given t)
      → IsOutcome texts now given db
          (explain texts key version_key merge metadata now fresh given t db)
  unfolding explain
  explain-IsOutcome now fresh given t db e open_before earned =
      if-IsOutcome texts now given db (str_eq (trim_space given.empty_body) "") _ _
        (λ h. unchanged-IsOutcome texts now given db _ refl)
        (λ h.
          publish-IsOutcome now fresh given _ _ _ t db e open_before h
            (λ k. earned (explained_completed (str_eq given.outcome "partial") given.outcome k))
            (λ k. is_blank-trimmed given.empty_body h))

  -- The text that the caller gave is the body, and nothing of it is blank.
  draft_body-solid :
      (given : TaskFinalization) (t : TaskRow) (db : Store)
      → str_eq (clean_task_draft texts given.body) "" ≡ false
      → is_blank (draft_body texts given.unverified_draft_fmt given.body t db) ≡ false
  unfolding draft_body clean_task_draft
  draft_body-solid given t db h = rw h (is_blank-trimmed _ h)

  finalize_body-IsOutcome :
      (now fresh : ℕ) (given : TaskFinalization) (t : TaskRow) (db : Store)
      → db.task ≡ some t
      → is_open t.status ≡ true
      → (str_eq given.outcome "completed" ≡ true → before_deadline now t.deadline ≡ true)
      → IsOutcome texts now given db
          (finalize_body texts key version_key merge metadata now fresh given t db)
  unfolding finalize_body IsEarned
  finalize_body-IsOutcome now fresh given t db e open_before in_time =
      let earned : str_eq (clean_task_draft texts given.body) "" && str_eq given.outcome "completed"
            ≡ false
          → str_eq given.outcome "completed" ≡ true
          → IsEarned texts now given t =
        λ h k. (in_time k, ground arith) in
      if-IsOutcome texts now given db
        (str_eq (clean_task_draft texts given.body) "" && str_eq given.outcome "completed") _ _
        (λ h. unchanged-IsOutcome texts now given db _ refl)
        (λ h.
          if-IsOutcome texts now given db
            (str_eq (draft_body texts given.unverified_draft_fmt given.body t db) "") _ _
            (λ k. explain-IsOutcome now fresh given t db e open_before (earned h))
            (λ k.
              publish-IsOutcome now fresh given _ _ _ t db e open_before k (earned h)
                (λ l. draft_body-solid given t db ((earned h l).1))))

  finalize_row-IsOutcome :
      (now : ℕ) (c : Option ℕ) (fresh : ℕ) (given : TaskFinalization) (t : TaskRow) (db : Store)
      → db.task ≡ some t
      → IsOutcome texts now given db
          (finalize_row texts key version_key merge metadata now c fresh given t db)
  unfolding finalize_row
  finalize_row-IsOutcome now c fresh given t db e =
      if-IsOutcome texts now given db (not (is_open t.status)) _ _
        (λ h. unchanged-IsOutcome texts now given db _ refl)
        (λ h.
          if-IsOutcome texts now given db (lost_run now c given t db) _ _
            (λ k. unchanged-IsOutcome texts now given db _ refl)
            (λ k.
              if-IsOutcome texts now given db (lost_claim given.claim_started_at t) _ _
                (λ l. unchanged-IsOutcome texts now given db _ refl)
                (λ l.
                  if-IsOutcome texts now given db (not_expired given.expired_at t) _ _
                    (λ m. unchanged-IsOutcome texts now given db _ refl)
                    (λ m.
                      if-IsOutcome texts now given db
                        (str_eq given.outcome "completed" && not (before_deadline now t.deadline)) _
                        _ (λ n. unchanged-IsOutcome texts now given db _ refl)
                        (λ n.
                          finalize_body-IsOutcome now fresh given t db e (ground arith)
                            (λ o. ground arith))))))

  finalize_selected-IsOutcome :
      (now : ℕ) (c : Option ℕ) (fresh : ℕ) (given : TaskFinalization) (db : Store)
      (t : Option TaskRow)
      → db.task ≡ t
      → IsOutcome texts now given db
          (finalize_selected texts key version_key merge metadata now c fresh given t db)
  unfolding finalize_selected
  finalize_selected-IsOutcome now c fresh given db none e =
      unchanged-IsOutcome texts now given db (err no_rows) refl
  finalize_selected-IsOutcome now c fresh given db (some t) e =
      finalize_row-IsOutcome now c fresh given t db e

  -- `finalizeTaskTx` either leaves the store as it was, whenever it fails or finds nothing to do, or
  -- the task was open, is now closed with the status of the outcome, and holds the body that was
  -- published, which is not empty; the body is the newest version among the results, and the earlier
  -- ones are kept. A completed result makes the task done and a cancelled one makes it canceled, and
  -- only a completed result, or a partial one of a graph that runs once, makes it done. A result that counts as completed is there before the deadline, the caller gave a
  -- text for it that is not empty once the hidden parts are gone, and a new notification of the task
  -- with a text that is not blank waits in the outbox.
  pub finalize_task_tx-IsOutcome :
      (now : ℕ) (c : Option ℕ) (fresh : ℕ) (given : TaskFinalization) (db : Store)
      → IsOutcome texts now given db
          (finalize_task_tx texts key version_key merge metadata now c fresh given db)
  unfolding finalize_task_tx
  finalize_task_tx-IsOutcome now c fresh given db =
      if-IsOutcome texts now given db (not (is_outcome given.outcome)) _ _
        (λ h. unchanged-IsOutcome texts now given db _ refl)
        (λ h. finalize_selected-IsOutcome now c fresh given db db.task refl)
