-- ===== src/Outbox/Deliver.antt =====
-- What a sender does with the journal (internal/agenttask/scheduler.go): `deliverTaskNotification`
-- with a journal, and `resolveTaskNotificationAttempt`. A call of the
-- transport is its outcome, in the classes of internal/core/agent.go; the deadline of the context
-- does not pass.
use blueship.Outbox.{Ref, Receipt, Journal, JournalResult, ok, err}
use blueship.Outbox.Ops.{begin_notification_attempt}
use blueship.Outbox.Resolution.{
  Parsed, confirm_notification_attempt, mark_notification_uncertain, defer_notification_attempt,
  reject_notification_attempt,
}
use blueship.Prelude.{
  ℕ, zero, suc, ◌+◌, String, Bool, true, false, ◌||◌, Option, none, some, List, [], ◌∷◌, ltb,
  if◌then◌else◌, str_eq, is_blank, trim_space,
}

-- The provider acknowledged; `IsPermanentlyNotSent`; `IsDefinitelyNotSent`, with the delay of
-- `NotificationRetryDelay`; any other error.
pub data CallOutcome : Type 0 where
  acknowledged : Receipt → CallOutcome
  permanently_not_sent : String → CallOutcome
  definitely_not_sent : Option ℕ → String → CallOutcome
  ambiguous : String → CallOutcome

abbrev pub max_notification_confirm_attempts : ℕ
max_notification_confirm_attempts = 3

abbrev pub default_notification_retry_delay : ℕ
default_notification_retry_delay = 60000

abbrev pub min_notification_retry_delay : ℕ
min_notification_retry_delay = 1000

unfoldable pub retry_delay : Option ℕ → ℕ
retry_delay none = default_notification_retry_delay
retry_delay (some d) =
    if ltb d min_notification_retry_delay then min_notification_retry_delay else d

module _ (parse : String → Parsed) where
  -- The loop over `ConfirmNotificationAttempt`.
  unfoldable pub confirm_loop : ℕ → ℕ → ℕ → Receipt → Journal → Journal
  confirm_loop zero now id receipt j = j
  confirm_loop (suc tries) now id receipt j =
      let (j', r) = confirm_notification_attempt parse now id receipt j in
      let again = confirm_loop tries now id receipt j' in elim r [ ok _ ↦ j' | err _ ↦ again ]

  -- `resolveTaskNotificationAttempt`, and whether the message was delivered.
  unfoldable pub resolve_task_notification_attempt : ℕ → ℕ → CallOutcome → Journal → Journal × Bool
  resolve_task_notification_attempt now id (acknowledged receipt) j =
      (confirm_loop max_notification_confirm_attempts now id receipt j, true)
  resolve_task_notification_attempt now id (permanently_not_sent reason) j =
      ((reject_notification_attempt now id reason j).0, false)
  resolve_task_notification_attempt now id (definitely_not_sent delay reason) j =
      ((defer_notification_attempt (now + retry_delay delay) id reason j).0, false)
  resolve_task_notification_attempt now id (ambiguous reason) j =
      ((mark_notification_uncertain now id reason j).0, false)

-- `taskNotificationOutcome`
pub record Delivered : Type 0 where
  pub handled : Bool
  pub delivered : Bool

abbrev pub only_handled : Delivered
only_handled = record { handled = true; delivered = false }

unfoldable pub is_acknowledged : CallOutcome → Bool
is_acknowledged (acknowledged receipt) = true
is_acknowledged (permanently_not_sent reason) = false
is_acknowledged (definitely_not_sent delay reason) = false
is_acknowledged (ambiguous reason) = false

module _ (key : List Ref → String) (parse : String → Parsed) where
  -- A sender that is missing is an outcome of its own.
  abbrev pub called : Option (ℕ → CallOutcome) → ℕ → CallOutcome
  called none id = definitely_not_sent none "sender unavailable"
  called (some notify) id = notify id

  unfoldable pub deliver_created :
      ℕ → Option (ℕ → CallOutcome) → Journal → JournalResult (ℕ × Bool) → Journal × Delivered
  deliver_created now notify j (err e) = (j, only_handled)
  deliver_created now notify j (ok (id, false)) = (j, only_handled)
  deliver_created now notify j (ok (id, true)) =
      let (k, delivered) = resolve_task_notification_attempt parse now id (called notify id) j in
      (k, record { handled = true; delivered = delivered })

  unfoldable pub deliver_unkeyed : Option (ℕ → CallOutcome) → Delivered
  deliver_unkeyed none = record { handled = false; delivered = false }
  deliver_unkeyed (some notify) =
      let sent = is_acknowledged (notify 0) in record { handled = sent; delivered = sent }

  unfoldable pub deliver_keyed :
      ℕ
      → ℕ
      → Bool
      → ℕ
      → ℕ
      → String
      → List Ref
      → Option (ℕ → CallOutcome)
      → Journal
      → Journal × Delivered
  deliver_keyed now fresh owned task user text refs notify j =
      let (k, r) = begin_notification_attempt key now fresh owned task user text refs j in
      deliver_created now notify k r

  -- `deliverTaskNotification`; the errors that it returns are left out.
  unfoldable pub deliver_task_notification :
      ℕ
      → ℕ
      → Bool
      → ℕ
      → ℕ
      → String
      → List Ref
      → Option (ℕ → CallOutcome)
      → Journal
      → Journal × Delivered
  deliver_task_notification now fresh owned task user text [] notify j =
      if is_blank text || str_eq (trim_space text) "[no-op]"
      then (j, only_handled)
      else (j, deliver_unkeyed notify)
  deliver_task_notification now fresh owned task user text (r ∷ refs) notify j =
      if is_blank text || str_eq (trim_space text) "[no-op]"
      then (j, only_handled)
      else deliver_keyed now fresh owned task user text (r ∷ refs) notify j
