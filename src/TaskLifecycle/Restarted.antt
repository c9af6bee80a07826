-- ===== src/TaskLifecycle/Restarted.antt =====
-- A closed task is restarted at most once (`TaskController.Restart`).
use blueship.Prelude.{
  ℕ, String, true, false, Option, some, List, ◌≡◌, refl, ◌∙◌, Option-cases, inl, inr, arith,
}
use blueship.Outbox.{Ref}
use blueship.TaskLifecycle.{TaskRow, Store, ok, is_terminal, is_recurring}
use blueship.TaskLifecycle.Draft.{Texts}
use blueship.TaskLifecycle.Control.{owned_row, restarted_row, restart_task}
use blueship.TaskLifecycle.Schedule.{StoreOp, run_senders, run_all}
use blueship.TaskLifecycle.Sealed.{IsKept, any_unguarded, run_all-IsKept}

-- A closed one-shot task of the owner, with the task that a restart made.
record Restarted (user soul id : ℕ) (db : Store) (child : ℕ) : Type 0 where
  task : TaskRow
  holds : db.task ≡ some task
  owned : owned_row user soul id db ≡ some task
  closed : is_terminal task.status ≡ true
  plain : is_recurring task ≡ false
  made : TaskRow
  stands : db.restart ≡ some made
  named : made.id ≡ child

owned_row-task :
    (user soul id : ℕ) (db : Store) (t : TaskRow)
    → owned_row user soul id db ≡ some t
    → db.task ≡ some t
unfolding owned_row
owned_row-task user soul id db t o = ground arith

-- The owner finds the same task in any store that has it.
owned_row-same :
    (user soul id : ℕ) (db db' : Store)
    → db'.task ≡ db.task
    → owned_row user soul id db' ≡ owned_row user soul id db
unfolding owned_row
owned_row-same user soul id db db' e = rw e refl

restart_task-Restarted :
    (now child user soul id budget : ℕ) (db db' : Store) (made : ℕ)
    → restart_task now child user soul id budget db ≡ (db', ok made)
    → Restarted user soul id db' made
restart_task-Restarted now child user soul id budget db db' made h =
    elim (Option-cases (owned_row user soul id db)) [
      | inl o ↦ absurd (unfold restart_task in ground arith)
      | inr (t, o) ↦
          let same : db'.task ≡ db.task = unfold restart_task in ground arith in
          let closed : is_terminal t.status ≡ true = unfold restart_task in ground arith in
          let plain : is_recurring t ≡ false = unfold restart_task in ground arith in
          let there : (r : TaskRow) × (db'.restart ≡ some r) × (r.id ≡ made) =
            elim (Option-cases db.restart) [
              | inl n ↦ (
                restarted_row now child budget t,
                unfold restart_task in ground arith,
                unfold restart_task in ground arith,
              )
              | inr (r, n) ↦
                  (r, unfold restart_task in ground arith, unfold restart_task in ground arith)
            ] in
          record {
            task = t;
            holds = same ∙ owned_row-task user soul id db t o;
            owned = owned_row-same user soul id db db' same ∙ o;
            closed = closed;
            plain = plain;
            made = there.0;
            stands = there.1;
            named = there.2;
          }
    ]

again :
    (now child user soul id budget : ℕ) (db : Store) (made : ℕ)
    → Restarted user soul id db made
    → restart_task now child user soul id budget db ≡ (db, ok made)
unfolding restart_task
again now child user soul id budget db made r =
    rw (r.owned, restart_task) (ground (arith, r.closed, r.plain, r.stands, r.named))

module _ (texts : Texts) (key : List Ref → String) (version_key : ℕ → String)
    (merge : String → String → String) (metadata : String → ℕ → String → String)
    (peer_of : String → Option String) where
  Restarted-run_all :
      (user soul id : ℕ) (db : Store) (made : ℕ) (ops : List StoreOp)
      → any_unguarded ops ≡ false
      → Restarted user soul id db made
      → Restarted user soul id (run_all texts key version_key merge metadata peer_of ops db) made
  unfolding IsKept
  Restarted-run_all user soul id db made ops guarded r =
      let later = run_all texts key version_key merge metadata peer_of ops db in
      let kept : IsKept (run_senders ops) db later =
        run_all-IsKept texts key version_key merge metadata peer_of ops db r.task r.holds r.closed
          r.plain guarded in
      record {
        task = r.task;
        holds = kept.0 ∙ r.holds;
        owned = owned_row-same user soul id db later kept.0 ∙ r.owned;
        closed = r.closed;
        plain = r.plain;
        made = r.made;
        stands = kept.3 r.made r.stands;
        named = r.named;
      }

  -- After a restart that gave the task `made`, any other restart of the same task by its owner gives
  -- `made` again and changes nothing, whatever writes the store has seen in between, unless one of the
  -- four without a guard on the status is among them.
  pub restart_task-once :
      (now child user soul id budget later_now later_child later_budget : ℕ) (db db' : Store)
      (made : ℕ) (ops : List StoreOp)
      → restart_task now child user soul id budget db ≡ (db', ok made)
      → any_unguarded ops ≡ false
      → restart_task later_now later_child user soul id later_budget
          (run_all texts key version_key merge metadata peer_of ops db')
        ≡ (run_all texts key version_key merge metadata peer_of ops db', ok made)
  restart_task-once now child user soul id budget later_now later_child later_budget db db' made ops
        h guarded =
      again later_now later_child user soul id later_budget _ made (
        Restarted-run_all user soul id db' made ops guarded
          (restart_task-Restarted now child user soul id budget db db' made h))
