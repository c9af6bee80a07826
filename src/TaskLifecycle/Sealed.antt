-- ===== src/TaskLifecycle/Sealed.antt =====
-- What a closed task keeps, whatever the store does to it later.
use blueship.Prelude.{
  ℕ, String, Bool, true, false, ◌||◌, Option, none, some, List, [], ◌∷◌, ◌≡◌, refl, ap, ◌∙◌, arith,
}
use blueship.StepStore.Schedule.{apply}
use blueship.Outbox.{Ref, Journal}
use blueship.TaskLifecycle.{TaskRow, Store, is_terminal, is_open, is_recurring}
use blueship.TaskLifecycle.Draft.{Texts}
use blueship.TaskLifecycle.Finalize.{
  TaskFinalization, finalize_row, finalize_selected, finalize_task_tx,
}
use blueship.TaskLifecycle.Writes.{
  change_row, is_hit, try_set_running, update_progress, complete, complete_exhausted, set_pending,
  set_pending_for_notification_retry, cancel_legacy, reset_stale, approve, pause_task,
  wake_paused_by_peer_task, wake_stale_paused, set_task_deadline, expire_task,
}
use blueship.TaskLifecycle.Submissions.{
  save_task_submission, defer_task_verification, reject_task_submission, checkpoint_task,
  record_iteration,
}
use blueship.TaskLifecycle.Control.{
  by_user, owned_row, cancel_task, dismiss, restart_task, resume_task,
}
use blueship.TaskLifecycle.Schedule.{
  StoreOp, is_unguarded, view, view_row, sender_of, run_senders, apply_op, run_all,
}
use blueship.TaskLifecycle.Closed.{apply-closed, with_task-view}

-- The task's row and its results are as they were, its notifications are what the senders alone have
-- made of them, and the task of a restart stays.
unfoldable pub IsKept : (Journal → Journal) → Store → Store → Type 0
IsKept senders db db' =
    (db'.task ≡ db.task)
    × (db'.artifacts ≡ db.artifacts)
    × (db'.journal ≡ senders db.journal)
    × ((r : TaskRow) → db.restart ≡ some r → db'.restart ≡ some r)

unfoldable pub any_unguarded : List StoreOp → Bool
any_unguarded [] = false
any_unguarded (op ∷ ops) = is_unguarded op || any_unguarded ops

IsKept-refl : (db : Store) → IsKept (λ j. j) db db
unfolding IsKept
IsKept-refl db = (refl, refl, refl, λ r h. h)

IsKept-trans :
    (f g : Journal → Journal) (a b c : Store)
    → IsKept f a b
    → IsKept g b c
    → IsKept (λ j. g (f j)) a c
unfolding IsKept
IsKept-trans f g a b c (p, q, r, k) (p', q', r', k') =
    (p' ∙ p, q' ∙ q, r' ∙ ap g r, λ x h. k' x (k x h))

module _ (texts : Texts) (key : List Ref → String) (version_key : ℕ → String)
    (merge : String → String → String) (metadata : String → ℕ → String → String)
    (peer_of : String → Option String) where
  finalize-closed :
      (now : ℕ) (c : Option ℕ) (fresh : ℕ) (given : TaskFinalization) (db : Store) (t : TaskRow)
      → db.task ≡ some t
      → is_terminal t.status ≡ true
      → (finalize_task_tx texts key version_key merge metadata now c fresh given db).0 ≡ db
  unfolding finalize_task_tx finalize_selected finalize_row is_terminal is_open
  finalize-closed now c fresh given db t e closed = ground arith

  apply_op-keeps :
      (op : StoreOp) (db : Store) (t : TaskRow)
      → db.task ≡ some t
      → is_terminal t.status ≡ true
      → is_recurring t ≡ false
      → is_unguarded op ≡ false
      → IsKept (sender_of op) db (apply_op texts key version_key merge metadata peer_of op db)
  unfolding apply_op IsKept sender_of is_terminal is_open is_unguarded change_row is_hit cancel_task
      dismiss restart_task resume_task owned_row try_set_running update_progress complete
      complete_exhausted set_pending set_pending_for_notification_retry cancel_legacy reset_stale
      approve pause_task wake_paused_by_peer_task wake_stale_paused set_task_deadline expire_task
      save_task_submission defer_task_verification reject_task_submission checkpoint_task
      record_iteration
  apply_op-keeps (StoreOp.finalize now c fresh given) db t e closed plain guarded =
      rw (finalize-closed now c fresh given db t e closed) (refl, refl, refl, λ r h. h)
  apply_op-keeps (StoreOp.cancel now fresh user soul id empty_body) db t e closed plain guarded =
      ground (arith, finalize-closed now none fresh (by_user empty_body) db t e closed)
  apply_op-keeps (StoreOp.resume user soul id) db t e closed plain guarded = ground arith
  apply_op-keeps (StoreOp.graph start_at op) db t e closed plain guarded =
      let same : apply op (view start_at db) ≡ view start_at db =
        apply-closed op (view start_at db) (view_row start_at t) (rw e refl) closed in
      rw same (with_task-view start_at db.task, refl, refl, λ r h. h)
  apply_op-keeps (StoreOp.try_running now) db t e closed plain guarded = ground arith
  apply_op-keeps (StoreOp.progress p) db t e closed plain guarded = ground arith
  apply_op-keeps (StoreOp.completion now r) db t e closed plain guarded = ground arith
  apply_op-keeps (StoreOp.exhausted now) db t e closed plain guarded = ground arith
  apply_op-keeps StoreOp.pending db t e closed plain guarded = ground arith
  apply_op-keeps StoreOp.notification_retry db t e closed plain guarded = ground arith
  apply_op-keeps (StoreOp.legacy_cancel now) db t e closed plain guarded = ground arith
  apply_op-keeps (StoreOp.stale limit) db t e closed plain guarded = ground arith
  apply_op-keeps StoreOp.approval db t e closed plain guarded = ground arith
  apply_op-keeps (StoreOp.pause p) db t e closed plain guarded = ground arith
  apply_op-keeps (StoreOp.wake_by_peer peer) db t e closed plain guarded = ground arith
  apply_op-keeps (StoreOp.wake_stale limit) db t e closed plain guarded = ground arith
  apply_op-keeps (StoreOp.deadline d) db t e closed plain guarded = ground arith
  apply_op-keeps (StoreOp.expire now) db t e closed plain guarded = ground arith
  apply_op-keeps (StoreOp.submit now claim output) db t e closed plain guarded = ground arith
  apply_op-keeps (StoreOp.defer claim reason next_at) db t e closed plain guarded = ground arith
  apply_op-keeps (StoreOp.reject claim p) db t e closed plain guarded = ground arith
  apply_op-keeps (StoreOp.checkpoint claim n session phase output p) db t e closed plain guarded =
      ground arith
  apply_op-keeps (StoreOp.iteration i) db t e closed plain guarded = ground arith
  apply_op-keeps (StoreOp.dismissal user soul id) db t e closed plain guarded = ground arith
  apply_op-keeps (StoreOp.restart now child user soul id budget) db t e closed plain guarded =
      ground arith
  apply_op-keeps (StoreOp.running now) db t e closed plain guarded = ground arith
  apply_op-keeps (StoreOp.failure reason) db t e closed plain guarded = ground arith
  apply_op-keeps StoreOp.next_run db t e closed plain guarded = ground arith
  apply_op-keeps (StoreOp.shaping n) db t e closed plain guarded = ground arith
  apply_op-keeps (StoreOp.sender change) db t e closed plain guarded = (refl, refl, refl, λ r h. h)

  apply_op-task :
      (op : StoreOp) (db : Store) (t : TaskRow)
      → db.task ≡ some t
      → is_terminal t.status ≡ true
      → is_recurring t ≡ false
      → is_unguarded op ≡ false
      → (apply_op texts key version_key merge metadata peer_of op db).task ≡ some t
  unfolding IsKept
  apply_op-task op db t e closed plain guarded =
      (apply_op-keeps op db t e closed plain guarded).0 ∙ e

  -- A one-shot task that is closed (done, failed or cancelled) keeps its row, its results and the task
  -- that a restart has made of it, and its notifications change by the senders alone, through any
  -- sequence of these writes by workers, the owner, the coordinator of a graph and senders, unless one
  -- of the four without a guard on the status (`SetRunning`, `Fail`, `ResetForNextRun`,
  -- `UpdateShaping`) is among them.
  pub run_all-IsKept :
      (ops : List StoreOp) (db : Store) (t : TaskRow)
      → db.task ≡ some t
      → is_terminal t.status ≡ true
      → is_recurring t ≡ false
      → any_unguarded ops ≡ false
      → IsKept (run_senders ops) db (run_all texts key version_key merge metadata peer_of ops db)
  unfolding run_all any_unguarded run_senders
  run_all-IsKept [] db t e closed plain guarded = IsKept-refl db
  run_all-IsKept (op ∷ ops) db t e closed plain guarded =
      let next = apply_op texts key version_key merge metadata peer_of op db in
      let first : is_unguarded op ≡ false = ground arith in
      let rest : any_unguarded ops ≡ false = ground arith in
      IsKept-trans (sender_of op) (run_senders ops) db next _
        (apply_op-keeps op db t e closed plain first)
        (run_all-IsKept ops next t (apply_op-task op db t e closed plain first) closed plain rest)
