-- ===== src/TaskLifecycle/Announced.antt =====
-- The notification of a result in the outbox.
use blueship.Prelude.{
  ℕ, String, false, some, List, [], ◌∷◌, ◌++◌, ◌≡◌, refl, arith, Option-cases, inl, inr, is_blank,
}
use blueship.Outbox.{
  Ref, Attempt, AttemptState, Journal, normalize_task_delivery_refs, sort_task_delivery_refs,
}
use blueship.Outbox.Ops.{queue_attempt, queued_attempt, queue_items}
use blueship.TaskLifecycle.{TaskRow}
use blueship.TaskLifecycle.Draft.{Texts}
use blueship.TaskLifecycle.Finalize.{notified, result_ref}

-- A new attempt for the task, with a text, that waits to be sent.
pub record Announced (t : TaskRow) (j j' : Journal) : Type 0 where
  pub attempt : Attempt
  pub added : j'.attempts ≡ attempt ∷ j.attempts
  pub of_task : attempt.task_id ≡ t.id
  pub due : attempt.state ≡ AttemptState.retryable
  pub told : is_blank attempt.message_text ≡ false

queue_attempt-added :
    (key : List Ref → String) (now fresh task user : ℕ) (text : String) (refs : List Ref)
    (j j' : Journal)
    → queue_attempt key now fresh task user text refs j ≡ some j'
    → j'.attempts ≡ queued_attempt key now fresh task user text refs ∷ j.attempts
unfolding queue_attempt queue_items
queue_attempt-added key now fresh task user text refs j j' h = ground arith

module _ (texts : Texts) (key : List Ref → String) (version_key : ℕ → String)
    (merge : String → String → String) (metadata : String → ℕ → String → String) where
  pub notified-Announced :
      (now fresh : ℕ) (t : TaskRow) (version : ℕ) (text : String) (pending : List Ref)
      (j j' : Journal)
      → is_blank text ≡ false
      → notified texts key version_key merge metadata now fresh t version text pending j ≡ some j'
      → Announced t j j'
  unfolding notified
  notified-Announced now fresh t version text pending j j' h e =
      elim (Option-cases (
        normalize_task_delivery_refs
          (pending ++ result_ref texts key version_key merge metadata version ∷ []))) [
            | inl n ↦ absurd (ground arith)
            | inr (refs, n) ↦ record {
              attempt =
                  queued_attempt key now fresh t.id t.user_id text (sort_task_delivery_refs refs);
              added =
                  queue_attempt-added key now fresh t.id t.user_id text
                    (sort_task_delivery_refs refs) j j' (ground arith);
              of_task = refl;
              due = refl;
              told = h;
            }
          ]
