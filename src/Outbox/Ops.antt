-- ===== src/Outbox/Ops.antt =====
-- How an attempt begins: `BeginNotificationAttempt` (internal/core/agent_store.go), and the attempt that
-- `finalizeTaskTx` (internal/core/agent_finalize.go) queues. The hash of an occurrence is the parameter
-- `key` of sorted refs.
use blueship.Outbox.{
  Ref, dispatching, retryable, Attempt, Item, Journal, missing_ids, missing_text, ref_too_long,
  no_refs, pair_not_found, partial_overlap, JournalResult, ok, err, same_ref,
  normalize_task_delivery_refs, sort_task_delivery_refs,
}
use blueship.Prelude.{
  ℕ, ◌+◌, String, Bool, true, false, not, ◌&&◌, ◌||◌, Option, none, some, List, [], ◌∷◌, ◌==◌,
  length, if◌then◌else◌, str_eq, is_blank,
}

-- UNIQUE (task_id, input_id, item_key)
unfoldable pub is_reserved : ℕ → Ref → List Item → Bool
is_reserved task r [] = false
is_reserved task r (i ∷ items) = (i.task_id == task && same_ref i.ref r) || is_reserved task r items

-- INSERT … ON CONFLICT DO NOTHING, with the number of rows that it returns.
unfoldable pub reserve_items : ℕ → ℕ → List Ref → List Item → List Item × ℕ
reserve_items id task [] items = (items, 0)
reserve_items id task (r ∷ refs) items =
    let taken = reserve_items id task refs items in
    let added =
      reserve_items id task refs (record { attempt_id = id; task_id = task; ref = r } ∷ items) in
    if is_reserved task r items then taken else (added.0, added.1 + 1)

-- UNIQUE (task_id, occurrence_key)
unfoldable pub find_occurrence : ℕ → String → List Attempt → Option Attempt
find_occurrence task k [] = none
find_occurrence task k (a ∷ attempts) =
    if a.task_id == task && str_eq a.occurrence_key k
    then some a
    else find_occurrence task k attempts

module _ (key : List Ref → String) where
  -- The row of a new attempt, with the defaults of its columns.
  abbrev pub new_attempt : ℕ → ℕ → ℕ → ℕ → String → List Ref → Attempt
  new_attempt now fresh task user text refs = record {
    id = fresh;
    task_id = task;
    user_id = user;
    occurrence_key = key refs;
    message_text = text;
    state = dispatching;
    receipt = none;
    error_message = none;
    attempt_count = 1;
    next_attempt_at = none;
    last_attempt_at = now;
    created_at = now;
    resolved_at = none;
  }

  -- An attempt with this occurrence of this user, or none.
  unfoldable pub existing_attempt : ℕ → ℕ → List Ref → Journal → Journal × JournalResult (ℕ × Bool)
  existing_attempt task user refs j = elim (find_occurrence task (key refs) j.attempts) [
    | none ↦ (j, err pair_not_found)
    | some a ↦ if a.user_id == user then (j, ok (a.id, false)) else (j, err pair_not_found)
  ]

  unfoldable pub insert_attempt :
      ℕ → ℕ → ℕ → ℕ → String → List Ref → Journal → Journal × JournalResult (ℕ × Bool)
  insert_attempt now fresh task user text refs j =
      let (items, reserved) = reserve_items fresh task refs j.items in
      if not (reserved == length refs) then (j, err partial_overlap) else (
        record j {
          attempts = new_attempt now fresh task user text refs ∷ j.attempts;
          items = items;
        },
        ok (fresh, true),
      )

  -- From the transaction on: `owned` tells whether the task is there and the user's.
  unfoldable pub admit :
      ℕ → ℕ → Bool → ℕ → ℕ → String → List Ref → Journal → Journal × JournalResult (ℕ × Bool)
  admit now fresh owned task user text refs j =
      if not owned
      then existing_attempt task user refs j
      else elim (find_occurrence task (key refs) j.attempts) [
        | some _ ↦ existing_attempt task user refs j
        | none ↦ insert_attempt now fresh task user text refs j
      ]

  unfoldable pub begin_normalized :
      ℕ
      → ℕ
      → Bool
      → ℕ
      → ℕ
      → String
      → Option (List Ref)
      → Journal
      → Journal × JournalResult (ℕ × Bool)
  begin_normalized now fresh owned task user text none j = (j, err ref_too_long)
  begin_normalized now fresh owned task user text (some []) j = (j, err no_refs)
  begin_normalized now fresh owned task user text (some (r ∷ rs)) j =
      admit now fresh owned task user text (sort_task_delivery_refs (r ∷ rs)) j

  -- `BeginNotificationAttempt`; `fresh` is the `uuid.New()`.
  unfoldable pub begin_notification_attempt :
      ℕ → ℕ → Bool → ℕ → ℕ → String → List Ref → Journal → Journal × JournalResult (ℕ × Bool)
  begin_notification_attempt now fresh owned task user text refs j =
      if task == 0 || user == 0
      then (j, err missing_ids)
      else if is_blank text
      then (j, err missing_text)
      else begin_normalized now fresh owned task user text (normalize_task_delivery_refs refs) j

  abbrev pub queued_attempt : ℕ → ℕ → ℕ → ℕ → String → List Ref → Attempt
  queued_attempt now fresh task user text refs =
      record (new_attempt now fresh task user text refs) {
        state = retryable;
        error_message = some "delivery_pending";
        attempt_count = 0;
        next_attempt_at = some now;
      }

  unfoldable pub queue_items : ℕ → ℕ → ℕ → ℕ → String → List Ref → Journal → Option Journal
  queue_items now fresh task user text refs j =
      let (items, reserved) = reserve_items fresh task refs j.items in
      if not (reserved == length refs)
      then none
      else some (record j {
        attempts = queued_attempt now fresh task user text refs ∷ j.attempts;
        items = items;
      })

  -- The rows that a finalization queues; `none` where a UNIQUE constraint refuses them.
  unfoldable pub queue_attempt : ℕ → ℕ → ℕ → ℕ → String → List Ref → Journal → Option Journal
  queue_attempt now fresh task user text refs j =
      elim (find_occurrence task (key refs) j.attempts) [
        | some _ ↦ none
        | none ↦ queue_items now fresh task user text refs j
      ]
